-- ===== src/Relay/Admission.antt =====
-- `admitConnection` and `releaseConnection`: the counters stand for the multiset of source
-- addresses whose connections are open.
use wormzy.Prelude.{
  ℕ, ◌+◌, ◌-◌, ◌≤◌, ◌<◌, String, ◌≡◌, true, false, ◌==◌, Text_eq, eq_iff, List, [], ◌∷◌, length,
  arith, if◌then◌else◌, ltb,
}
use wormzy.Prelude.Dict.{Distinct, lookup-insert, lookup-erase, insert-Distinct, erase-Distinct}
use wormzy.Relay.{
  RelayServer, live_count, effective_live_limit, effective_live_per_ip_limit, admit_connection,
  release_connection,
}

-- The open connections of one address.
unfoldable pub opens : String → List String → ℕ
opens ip [] = 0
opens ip (j ∷ rest) = (if j == ip then 1 else 0) + opens ip rest

-- One connection of an address is closed.
unfoldable pub close_one : String → List String → List String
close_one ip [] = []
close_one ip (j ∷ rest) = if j == ip then rest else j ∷ close_one ip rest

-- The counters count the open connections, in total and for each address.
pub record Tracks (s : RelayServer) (ips : List String) : Type 0 where
  pub total : s.live_n ≡ length ips
  pub each : (ip : String) → live_count ip s.live ≡ opens ip ips
  pub distinct : Distinct s.live

-- The sets of open connections that the limits allow.
pub record WithinLimits (s : RelayServer) (ips : List String) : Type 0 where
  pub total : length ips ≤ effective_live_limit s
  pub each : (ip : String) → opens ip ips ≤ effective_live_per_ip_limit s

pub opens-close_one :
    (ip j : String) (ips : List String)
    → 0 < opens ip ips
    → opens j (close_one ip ips) + (if ip == j then 1 else 0) ≡ opens j ips
unfolding opens close_one
opens-close_one ip j [] h = absurd (omega arith)
opens-close_one ip j (i ∷ ips) h =
    ground (arith, eq_iff ip j, eq_iff i ip, eq_iff i j, opens-close_one ip j ips)

pub length-close_one :
    (ip : String) (ips : List String)
    → 0 < opens ip ips
    → length (close_one ip ips) + 1 ≡ length ips
unfolding opens close_one
length-close_one ip [] h = absurd (omega arith)
length-close_one ip (i ∷ ips) h = ground (arith, length-close_one ip ips)

pub opens-le-length : (ip : String) (ips : List String) → opens ip ips ≤ length ips
unfolding opens
opens-le-length ip [] = omega arith
opens-le-length ip (i ∷ ips) = ground (arith, opens-le-length ip ips)

module _ (s : RelayServer) (ip : String) (ips : List String) (t : Tracks s ips) where
  -- If the counters count the open connections, then a connection is admitted exactly when the open
  -- ones are fewer than the limit, and those of its address fewer than the limit for one address.
  pub admit_iff : (admit_connection s ip).0 ≡ (
      if ltb (length ips) (effective_live_limit s)
      then ltb (opens ip ips) (effective_live_per_ip_limit s)
      else false)
  unfolding admit_connection
  admit_iff = ground (arith, t.total, t.each ip)

  admitted_total :
      (admit_connection s ip).0 ≡ true → (admit_connection s ip).1.live_n ≡ length (ip ∷ ips)
  unfolding admit_connection
  admitted_total h = ground (arith, t.total)

  admitted_each :
      (j : String)
      → (admit_connection s ip).0 ≡ true
      → live_count j (admit_connection s ip).1.live ≡ opens j (ip ∷ ips)
  unfolding admit_connection opens
  admitted_each j h = ground (
    arith,
    t.each j,
    t.each ip,
    eq_iff ip j,
    lookup-insert ip j (live_count ip s.live + 1) s.live,
  )

  admitted-Distinct : Distinct (admit_connection s ip).1.live
  unfolding admit_connection
  admitted-Distinct =
      ground (arith, t.distinct, insert-Distinct ip (live_count ip s.live + 1) s.live)

  pub admit-Tracks : (admit_connection s ip).0 ≡ true → Tracks (admit_connection s ip).1 (ip ∷ ips)
  admit-Tracks h = record {
    total = admitted_total h;
    each = λ j. admitted_each j h;
    distinct = admitted-Distinct;
  }

  pub admit_refused : (admit_connection s ip).0 ≡ false → (admit_connection s ip).1 ≡ s
  unfolding admit_connection
  admit_refused h = ground arith

  released_each :
      (j : String)
      → 0 < opens ip ips
      → live_count j (release_connection s ip).live ≡ opens j (close_one ip ips)
  unfolding release_connection
  released_each j h = ground (
    arith,
    t.each j,
    t.each ip,
    eq_iff ip j,
    t.distinct,
    opens-close_one ip j ips,
    lookup-insert ip j (live_count ip s.live - 1) s.live,
    lookup-erase ip j s.live,
  )

  released_total : 0 < opens ip ips → (release_connection s ip).live_n ≡ length (close_one ip ips)
  unfolding release_connection
  released_total h = ground (arith, t.total, length-close_one ip ips)

  released-Distinct : Distinct (release_connection s ip).live
  unfolding release_connection
  released-Distinct = ground (
    arith,
    t.distinct,
    insert-Distinct ip (live_count ip s.live - 1) s.live,
    erase-Distinct ip s.live,
  )

  -- If the counters count the open connections, and one of the address is open, then after a
  -- release they count the others.
  pub release-Tracks : 0 < opens ip ips → Tracks (release_connection s ip) (close_one ip ips)
  release-Tracks h = record {
    total = released_total h;
    each = λ j. released_each j h;
    distinct = released-Distinct;
  }
