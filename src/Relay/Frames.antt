-- ===== src/Relay/Frames.antt =====
-- What each operation of the relay leaves alone: the admission counters and the waiting table are
-- separate parts of the state.
use wormzy.Prelude.{◌≡◌, ◌∙◌, String, List, length, refl, arith, sym}
use wormzy.Relay.{
  RelayServer, RelayServerClient, admit_connection, release_connection, register, retain, join,
  unregister_waiting,
}
use wormzy.Relay.Admission.{Tracks, WithinLimits, opens}
use wormzy.Relay.Registry.{IsBounded}

-- The counters and their limits.
pub record SameAdmission (s t : RelayServer) : Type 0 where
  pub live : t.live ≡ s.live
  pub live_n : t.live_n ≡ s.live_n
  pub live_limit : t.live_limit ≡ s.live_limit
  pub live_per_ip_limit : t.live_per_ip_limit ≡ s.live_per_ip_limit

-- The table, its gauge and its limits.
pub record SameTable (s t : RelayServer) : Type 0 where
  pub waiting : t.waiting ≡ s.waiting
  pub waiting_peers : t.waiting_peers ≡ s.waiting_peers
  pub waiting_limit : t.waiting_limit ≡ s.waiting_limit
  pub waiting_per_ip_limit : t.waiting_per_ip_limit ≡ s.waiting_per_ip_limit

pub register-SameAdmission :
    (s : RelayServer) (c : RelayServerClient) → SameAdmission s (register s c).1
unfolding register retain join
register-SameAdmission s c = record {
  live = ground arith;
  live_n = ground arith;
  live_limit = ground arith;
  live_per_ip_limit = ground arith;
}

pub unregister_waiting-SameAdmission :
    (s : RelayServer) (c : RelayServerClient) → SameAdmission s (unregister_waiting s c).1
unfolding unregister_waiting
unregister_waiting-SameAdmission s c = record {
  live = ground arith;
  live_n = ground arith;
  live_limit = ground arith;
  live_per_ip_limit = ground arith;
}

pub admit_connection-SameTable :
    (s : RelayServer) (ip : String) → SameTable s (admit_connection s ip).1
unfolding admit_connection
admit_connection-SameTable s ip = record {
  waiting = ground arith;
  waiting_peers = ground arith;
  waiting_limit = ground arith;
  waiting_per_ip_limit = ground arith;
}

pub release_connection-SameTable :
    (s : RelayServer) (ip : String) → SameTable s (release_connection s ip)
unfolding release_connection
release_connection-SameTable s ip = record {
  waiting = refl;
  waiting_peers = refl;
  waiting_limit = refl;
  waiting_per_ip_limit = refl;
}

module _ (s t : RelayServer) (e : SameAdmission s t) (ips : List String) where
  pub Tracks-SameAdmission : Tracks s ips → Tracks t ips
  Tracks-SameAdmission h = record {
    total = e.live_n ∙ h.total;
    each = λ ip. rw (e.live) (h.each ip);
    distinct = rw (e.live) h.distinct;
  }

  pub WithinLimits-SameAdmission : WithinLimits s ips → WithinLimits t ips
  WithinLimits-SameAdmission h = record {
    total = rw (e.live_limit) h.total;
    each = λ ip. rw (e.live_per_ip_limit) (h.each ip);
  }

pub IsBounded-SameTable : (s t : RelayServer) → SameTable s t → IsBounded s → IsBounded t
IsBounded-SameTable s t e v = record {
  distinct = rw (e.waiting) v.distinct;
  keyed = λ k c. rw (e.waiting) (v.keyed k c);
  total = rw (e.waiting, e.waiting_limit) v.total;
  each = λ ip. rw (e.waiting, e.waiting_per_ip_limit) (v.each ip);
  gauge = rw (e.waiting, e.waiting_peers) v.gauge;
}

-- The same addresses in another order.
pub Tracks-opens :
    (s : RelayServer) (xs ys : List String)
    → length ys ≡ length xs
    → ((ip : String) → opens ip ys ≡ opens ip xs)
    → Tracks s xs
    → Tracks s ys
Tracks-opens s xs ys l o h = record {
  total = omega (arith, h.total);
  each = λ ip. h.each ip ∙ sym (o ip);
  distinct = h.distinct;
}
