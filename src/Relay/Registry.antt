-- ===== src/Relay/Registry.antt =====
-- `register`, `unregisterWaiting` and `waitingForSource`: the table of peers that wait for their
-- partner.
use wormzy.Prelude.{
  ◌+◌, ◌≤◌, String, ◌≡◌, ◌==◌, Text_eq, List_eq, eq_iff, none, some, [], ◌∷◌, length, arith,
  if◌then◌else◌, inl, inr, Option-cases,
}
use wormzy.Prelude.Dict.{
  Dict, Distinct, lookup, insert, erase, lookup-insert, lookup-erase, insert-Distinct,
  erase-Distinct, length-insert, length-erase-le,
}
use wormzy.Relay.{
  RelayServer, RelayServerClient, effective_waiting_limit, effective_waiting_per_ip_limit,
  waiting_for_source, retain, join, register, unregister_waiting,
}

module _ (ip k : String) (c : RelayServerClient) where
  pub waiting_for_source-insert :
      (m : Dict RelayServerClient)
      → lookup k m ≡ none
      → waiting_for_source ip (insert k c m)
        ≡ (if c.source_ip == ip then 1 else 0) + waiting_for_source ip m
  unfolding waiting_for_source insert lookup
  waiting_for_source-insert [] h = omega arith
  waiting_for_source-insert ((i, w) ∷ m) h = ground (arith, waiting_for_source-insert m)

pub waiting_for_source-erase-le :
    (ip k : String) (m : Dict RelayServerClient)
    → waiting_for_source ip (erase k m) ≤ waiting_for_source ip m
unfolding waiting_for_source erase
waiting_for_source-erase-le ip k [] = omega arith
waiting_for_source-erase-le ip k ((i, w) ∷ m) = ground (arith, waiting_for_source-erase-le ip k m)

-- The table is within both limits, holds each client under its own session, and the gauge shows
-- its size.
pub record IsBounded (s : RelayServer) : Type 0 where
  pub distinct : Distinct s.waiting
  pub keyed :
      (k : String) (c : RelayServerClient) → lookup k s.waiting ≡ some c → c.hello.session ≡ k
  pub total : length s.waiting ≤ effective_waiting_limit s
  pub each : (ip : String) → waiting_for_source ip s.waiting ≤ effective_waiting_per_ip_limit s
  pub gauge : s.waiting_peers ≡ length s.waiting

module _ (s : RelayServer) (client : RelayServerClient) (v : IsBounded s) where
  abbrev session : String
  session = client.hello.session

  retain-IsBounded : lookup session s.waiting ≡ none → IsBounded (retain s client).1
  unfolding retain
  retain-IsBounded fresh = record {
    distinct = ground (arith, v.distinct, insert-Distinct session client s.waiting);
    keyed = λ k c h.
        ground (arith, v.keyed k c, lookup-insert session k client s.waiting, eq_iff session k);
    total = ground (arith, v.total, length-insert session client s.waiting);
    each = λ ip. ground (
      arith,
      v.each ip,
      waiting_for_source-insert ip session client s.waiting,
      eq_iff client.source_ip ip,
    );
    gauge = ground (arith, v.gauge);
  }

  join-IsBounded : (other : RelayServerClient) → IsBounded (join s other client).1
  unfolding join
  join-IsBounded other = record {
    distinct = ground (arith, v.distinct, erase-Distinct session s.waiting);
    keyed = λ k c h.
        ground (arith, v.keyed k c, v.distinct, lookup-erase session k s.waiting, eq_iff session k);
    total = ground (arith, v.total, length-erase-le session s.waiting);
    each = λ ip. ground (arith, v.each ip, waiting_for_source-erase-le ip session s.waiting);
    gauge = ground (arith, v.gauge);
  }

  -- A registration, whatever its outcome, keeps the waiting table within both limits, each session
  -- once and under its own key, and the gauge at the table's length.
  pub register-IsBounded : IsBounded (register s client).1
  unfolding register
  register-IsBounded = elim (Option-cases (lookup session s.waiting)) [
    | inl e ↦ rw (e, register) (retain-IsBounded e)
    | inr (other, e) ↦ rw (e, register) (join-IsBounded other)
  ]

  -- So does a peer that leaves the table.
  pub unregister_waiting-IsBounded : IsBounded (unregister_waiting s client).1
  unfolding unregister_waiting
  unregister_waiting-IsBounded = record {
    distinct = ground (arith, v.distinct, erase-Distinct session s.waiting);
    keyed = λ k c h.
        ground (arith, v.keyed k c, v.distinct, lookup-erase session k s.waiting, eq_iff session k);
    total = ground (arith, v.total, length-erase-le session s.waiting);
    each = λ ip. ground (arith, v.each ip, waiting_for_source-erase-le ip session s.waiting);
    gauge = ground (arith, v.gauge);
  }
