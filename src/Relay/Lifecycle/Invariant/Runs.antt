-- ===== src/Relay/Lifecycle/Invariant/Runs.antt =====
-- The relay over any sequence of events.
use wormzy.Prelude.{
  ℕ, ◌≤◌, ◌≡◌, refl, String, true, Text_eq, Option, none, some, List, [], ◌∷◌, length, arith, inl,
  inr, Option-cases, Bool-cases, eq_iff, ap, ◌∙◌, length-map,
}
use wormzy.Prelude.Dict.{Dict, lookup}
use wormzy.Relay.{
  RelayServerClient, admit_connection, effective_live_limit, live_count,
  effective_live_per_ip_limit, effective_waiting_limit, effective_waiting_per_ip_limit,
  waiting_for_source,
}
use wormzy.Relay.Admission.{WithinLimits, opens, admit-Tracks, admit_iff, admit_refused}
use wormzy.Relay.Frames.{admit_connection-SameTable, IsBounded-SameTable}
use wormzy.Relay.Lifecycle.Conns.{registering, Conn, find, ips, Below-suc, find-id, find_fresh}
use wormzy.Relay.Lifecycle.{
  System, Event, accept, hello_fails, hello, wait_expires, ends, on_hello, on_hello_fails,
  on_wait_expires, on_ends, at, step, run,
}
use wormzy.Relay.Lifecycle.Invariant.Table.{Held, waiter}
use wormzy.Relay.Lifecycle.Invariant.Steps.{
  Inv, on_hello-Inv, on_hello_fails-Inv, on_wait_expires-Inv, on_ends-Inv,
}

at-Inv :
    (y : System) (id : ℕ) (o : Option Conn) (k : Conn → System)
    → find id y.conns ≡ o
    → Inv y
    → ((c : Conn) → find c.id y.conns ≡ some c → Inv (k c))
    → Inv (at y o k)
at-Inv y id none k e v h = v
at-Inv y id (some c) k e v h = h c (ap (λ i. find i y.conns) (find-id id y.conns c e) ∙ e)

module _ (y : System) (ip : String) (v : Inv y) where
  admitted-WithinLimits :
      (admit_connection y.server ip).0 ≡ true
      → WithinLimits (admit_connection y.server ip).1 (ip ∷ ips y.conns)
  unfolding admit_connection opens
  admitted-WithinLimits h = record {
    total = ground (arith, admit_iff y.server ip (ips y.conns) v.tracks);
    each = λ j.
        ground (arith, admit_iff y.server ip (ips y.conns) v.tracks, v.limits.each j, eq_iff ip j);
  }

  accepted-Held :
      Held
        (admit_connection y.server ip).1.waiting
        (record { id = y.next; ip = ip; phase = registering } ∷ y.conns)
  unfolding find
  accepted-Held k w l =
      let l' : lookup k y.server.waiting ≡ some w =
        rw (← (admit_connection-SameTable y.server ip).waiting) l in
      ground (arith, v.held k w l', find_fresh y.next y.conns v.below, new_id w.conn)
    where
      new_id : (i : ℕ) → y.next ≡ i → find y.next y.conns ≡ find i y.conns
      new_id i e = ap (λ j. find j y.conns) e

  accept-Inv : Inv (step y (accept ip))
  unfolding step
  accept-Inv = elim (Bool-cases (admit_connection y.server ip).0) [
    | inl admitted ↦ rw admitted (record {
      tracks = admit-Tracks y.server ip (ips y.conns) v.tracks admitted;
      limits = admitted-WithinLimits admitted;
      bounded = IsBounded-SameTable y.server _ (admit_connection-SameTable y.server ip) v.bounded;
      held = accepted-Held;
      below = (omega arith, Below-suc y.next y.conns v.below);
    })
    | inr refused ↦
        rw (refused, admit_refused y.server ip (ips y.conns) v.tracks refused)
          (record {
            tracks = v.tracks;
            limits = v.limits;
            bounded = v.bounded;
            held = v.held;
            below = Below-suc y.next y.conns v.below;
          })
  ]

-- Every event keeps the invariant.
pub step-Inv : (y : System) (e : Event) → Inv y → Inv (step y e)
unfolding step
step-Inv y (accept ip) v = accept-Inv y ip v
step-Inv y (hello_fails id) v =
    at-Inv y id _ (λ c. on_hello_fails y c c.phase) refl v
      λ c f. on_hello_fails-Inv y c v f c.phase refl
step-Inv y (hello id h) v =
    at-Inv y id _ (λ c. on_hello y c c.phase h) refl v λ c f. on_hello-Inv y c v f c.phase h refl
step-Inv y (wait_expires id) v =
    at-Inv y id _ (λ c. on_wait_expires y c c.phase) refl v
      λ c f. on_wait_expires-Inv y c v f c.phase refl
step-Inv y (ends id) v =
    at-Inv y id _ (λ c. on_ends y c c.phase) refl v λ c f. on_ends-Inv y c v f c.phase refl

-- From a relay that keeps it, the invariant holds after any events.
pub run-Inv : (y : System) (es : List Event) → Inv y → Inv (run y es)
unfolding run
run-Inv y [] v = v
run-Inv y (e ∷ es) v = run-Inv (step y e) es (step-Inv y e v)

no_entries : (m : Dict RelayServerClient) → ((k : String) → lookup k m ≡ none) → m ≡ []
no_entries [] h = refl
no_entries ((k, c) ∷ m) h = absurd (unfold lookup in ground (arith, h k, eq_iff k k))

-- A relay with the given limits, before its first connection.
abbrev pub fresh : ℕ → ℕ → ℕ → ℕ → System
fresh waiting_limit waiting_per_ip_limit live_limit live_per_ip_limit = record {
  server = record {
    waiting = [];
    live = [];
    live_n = 0;
    waiting_limit = waiting_limit;
    waiting_per_ip_limit = waiting_per_ip_limit;
    live_limit = live_limit;
    live_per_ip_limit = live_per_ip_limit;
    paired = [];
    waiting_peers = 0;
  };
  conns = [];
  next = 0;
}

fresh-Inv : (a b c d : ℕ) → Inv (fresh a b c d)
unfolding lookup opens waiting_for_source
fresh-Inv a b c d = record {
  tracks = record { total = refl; each = λ ip. refl; distinct = tt };
  limits = record { total = omega arith; each = λ ip. omega arith };
  bounded = record {
    distinct = tt;
    keyed = λ k w l. cc;
    total = omega arith;
    each = λ ip. omega arith;
    gauge = refl;
  };
  held = λ k w l. cc;
  below = tt;
}

-- From a fresh relay with any limits, after any events, the counters are the numbers of handlers
-- that run, in total and for each address; these and the waiting table are within their limits in
-- total and for each address; and the gauge is the table's length.
pub run-fresh_bounds :
    (a b c d : ℕ) (es : List Event) (ip : String)
    → let y = run (fresh a b c d) es in
      (y.server.live_n ≡ length y.conns)
      × (live_count ip y.server.live ≡ opens ip (ips y.conns))
      × (length y.conns ≤ effective_live_limit y.server)
      × (opens ip (ips y.conns) ≤ effective_live_per_ip_limit y.server)
      × (length y.server.waiting ≤ effective_waiting_limit y.server)
      × (waiting_for_source ip y.server.waiting ≤ effective_waiting_per_ip_limit y.server)
      × (y.server.waiting_peers ≡ length y.server.waiting)
run-fresh_bounds a b c d es ip =
    let v = run-Inv (fresh a b c d) es (fresh-Inv a b c d) in
    let n = length-map (λ (c : Conn). c.ip) (run (fresh a b c d) es).conns in
    (
      v.tracks.total ∙ n,
      v.tracks.each ip,
      omega (arith, v.limits.total, n),
      v.limits.each ip,
      v.bounded.total,
      v.bounded.each ip,
      v.bounded.gauge,
    )

-- From a fresh relay with any limits, after any events, if no handler runs then the live counter,
-- the counter of every address and the waiting table are empty: no capacity leaks.
pub run-fresh_idle :
    (a b c d : ℕ) (es : List Event) (ip : String)
    → (run (fresh a b c d) es).conns ≡ []
    → let s = (run (fresh a b c d) es).server in
      (s.live_n ≡ 0) × (live_count ip s.live ≡ 0) × (s.waiting ≡ [])
run-fresh_idle a b c d es ip h =
    let v = run-Inv (fresh a b c d) es (fresh-Inv a b c d) in
    (
      v.tracks.total ∙ ap (λ cs. length (ips cs)) h,
      v.tracks.each ip ∙ ap (λ cs. opens ip (ips cs)) h ∙ (unfold opens in refl),
      no_entries _ (λ k. elim (Option-cases (lookup k (run (fresh a b c d) es).server.waiting)) [
        | inl e ↦ e
        | inr (w, e) ↦ absurd (none_held w (v.held k w e))
      ]),
    )
  where
    none_held :
        (w : RelayServerClient) → find w.conn (run (fresh a b c d) es).conns ≡ some (waiter w) → ⊥
    none_held w e = unfold find in ground (arith, h)
