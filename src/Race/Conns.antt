-- ===== src/Race/Conns.antt =====
-- internal/transport/path_selection.go: every connection that the race's workers deliver is the one
-- that is selected, or is closed.
use wormzy.Prelude.{
  ℕ, ◌+◌, ◌≤◌, suc, ◌==◌, Nat_eq, none, some, List, [], ◌∷◌, ◌++◌, if◌then◌else◌, ◌≡◌, ◌≢◌, ◌⊎◌,
  refl, arith, inl, inr, Option-cases, Bool-cases, ap, sym, ◌∙◌,
}
use wormzy.Prelude.Fallible.{ok, fail, Fallible-cases}
use wormzy.Race.{
  DirectRaceResult, Event, direct, provisional_timer, relay_timer, relay, done, Setup, Race,
  Outcome, chosen, waiting, new_race, adopt_direct, adopt_relay,
}
use wormzy.Race.Turns.{
  Turn, goes_on, ends, awaits_relay, turn, on_direct, on_provisional_timer, on_relay_timer,
  on_relay, on_done, on_last_relay, await_relay, wait_loop, conn_of, drain_race_losers,
  establish_legacy_quic_path, worker_events, is_undialable,
}

abbrev pub count : ℕ → List ℕ → ℕ
count conn [] = 0
count conn (c ∷ cs) = if c == conn then suc (count conn cs) else count conn cs

count-append : (conn : ℕ) (xs ys : List ℕ) → count conn (xs ++ ys) ≡ count conn xs + count conn ys
count-append conn [] ys = omega arith
count-append conn (x ∷ xs) ys = ground (arith, count-append conn xs ys)

-- The connections that the events deliver.
abbrev pub delivered : List Event → List ℕ
delivered [] = []
delivered (event ∷ events) = conn_of event ++ delivered events

-- The connection that a call returns.
abbrev pub kept : Outcome → List ℕ
kept (chosen path) = path.conn ∷ []
kept _ = []

-- The connections that a state answers for: those closed, and the provisional one.
abbrev held : Race → List ℕ
held r = elim r.provisional [ none ↦ r.discarded | some (conn, _) ↦ conn ∷ r.discarded ]

-- The connections that a turn leaves: closed, provisional, or returned.
abbrev left_by : Turn → List ℕ
left_by (goes_on next) = held next
left_by (ends next outcome) = kept outcome ++ next.discarded
left_by (awaits_relay next) = next.discarded

on_direct-left_by :
    (conn : ℕ) (u : Setup) (r : Race) (result : DirectRaceResult)
    → ((c : ℕ) → count c (conn_of (direct result)) + count c (held r) ≤ 1)
    → count conn (left_by (on_direct u r result))
      ≡ count conn (conn_of (direct result)) + count conn (held r)
unfolding on_direct conn_of adopt_direct
on_direct-left_by conn u r result once = elim (Fallible-cases result.end) [
  | inr (e, failing) ↦ ground (arith, failing)
  | inl (c, won) ↦ elim (Option-cases r.provisional) [
    | inl nobody ↦ ground (arith, won, nobody)
    | inr ((other, earlier), somebody) ↦ ground (arith, won, somebody, once c)
  ]
]

turn-left_by :
    (conn : ℕ) (u : Setup) (r : Race) (event : Event)
    → ((c : ℕ) → count c (conn_of event) + count c (held r) ≤ 1)
    → count conn (left_by (turn u r event)) ≡ count conn (conn_of event) + count conn (held r)
unfolding turn on_provisional_timer on_relay_timer on_relay on_done conn_of adopt_direct adopt_relay
turn-left_by conn u r (direct result) once = on_direct-left_by conn u r result once
turn-left_by conn u r provisional_timer once = elim (Option-cases r.provisional) [
  | inl nobody ↦ ground (arith, nobody)
  | inr ((other, earlier), somebody) ↦ ground (arith, somebody)
]
turn-left_by conn u r relay_timer once = ground arith
turn-left_by conn u r (relay (ok c)) once = elim (Option-cases r.provisional) [
  | inl nobody ↦ ground (arith, nobody)
  | inr ((other, earlier), somebody) ↦ ground (arith, somebody)
]
turn-left_by conn u r (relay (fail e)) once = ground arith
turn-left_by conn u r done once = elim (Option-cases r.provisional) [
  | inl nobody ↦ ground (arith, nobody)
  | inr ((other, earlier), somebody) ↦ ground (arith, somebody)
]

count-drain_race_losers :
    (conn : ℕ) (events : List Event) (discarded : List ℕ)
    → count conn (drain_race_losers events discarded)
      ≡ count conn (delivered events) + count conn discarded
unfolding drain_race_losers
count-drain_race_losers conn [] discarded = omega arith
count-drain_race_losers conn (event ∷ events) discarded = omega (
  arith,
  count-drain_race_losers conn events (conn_of event ++ discarded),
  count-append conn (conn_of event) discarded,
  count-append conn (conn_of event) (delivered events),
)

-- What the end of the loop leaves: the connection that is returned, those that are still to come, and
-- those that are closed.
abbrev at_the_end : ℕ → (Race × Outcome) × List Event → ℕ
at_the_end conn ((r, outcome), late) =
    count conn (kept outcome) + (count conn (delivered late) + count conn r.discarded)

await_relay-at_the_end :
    (conn : ℕ) (u : Setup) (r : Race) (events : List Event)
    → at_the_end conn (await_relay u r events)
      ≡ count conn (delivered events) + count conn r.discarded
unfolding await_relay on_last_relay conn_of adopt_relay
await_relay-at_the_end conn u r [] = omega arith
await_relay-at_the_end conn u r (relay (ok c) ∷ events) = ground arith
await_relay-at_the_end conn u r (relay (fail e) ∷ events) = ground arith
await_relay-at_the_end conn u r (direct result ∷ events) = omega (
  arith,
  await_relay-at_the_end conn u r events,
  count-append conn (conn_of (direct result)) (delivered (await_relay u r events).1),
  count-append conn (conn_of (direct result)) (delivered events),
)
await_relay-at_the_end conn u r (provisional_timer ∷ events) =
    await_relay-at_the_end conn u r events
await_relay-at_the_end conn u r (relay_timer ∷ events) = await_relay-at_the_end conn u r events
await_relay-at_the_end conn u r (done ∷ events) = await_relay-at_the_end conn u r events

pub Turn-cases :
    (t : Turn)
    → ((next : Race) × (t ≡ goes_on next))
      ⊎ (((next : Race) × (outcome : Outcome) × (t ≡ ends next outcome))
          ⊎ ((next : Race) × (t ≡ awaits_relay next)))
Turn-cases (goes_on next) = inl (next, refl)
Turn-cases (ends next outcome) = inr (inl (next, outcome, refl))
Turn-cases (awaits_relay next) = inr (inr (next, refl))

wait_loop-at_the_end :
    (conn : ℕ) (u : Setup) (r : Race) (events : List Event)
    → ((c : ℕ) → count c (delivered events) + count c (held r) ≤ 1)
    → (wait_loop u r events).0.1 ≢ waiting
    → at_the_end conn (wait_loop u r events) ≡ count conn (delivered events) + count conn (held r)
unfolding wait_loop
wait_loop-at_the_end conn u r [] once over = absurd (over refl)
wait_loop-at_the_end conn u r (event ∷ events) once over =
    let each = λ (c : ℕ). count-append c (conn_of event) (delivered events) in
    let now : (c : ℕ)
        → count c (left_by (turn u r event)) ≡ count c (conn_of event) + count c (held r) =
      λ c. turn-left_by c u r event (λ d. omega (arith, once d, each d)) in
    elim (Turn-cases (turn u r event)) [
      | inl (next, on) ↦
          let same : (c : ℕ) → count c (held next) ≡ count c (conn_of event) + count c (held r) =
            λ c. sym (ap (λ t. count c (left_by t)) on) ∙ now c in
          let rest =
            wait_loop-at_the_end conn u next events (λ c. omega (arith, once c, each c, same c))
              (λ e. over (ground (arith, on, e))) in
          ground (arith, on, rest, same conn, each conn)
      | inr (inl (next, outcome, over_now)) ↦
          let same : count conn (kept outcome ++ next.discarded)
              ≡ count conn (conn_of event) + count conn (held r) =
            sym (ap (λ t. count conn (left_by t)) over_now) ∙ now conn in
          ground (arith, over_now, same, each conn, count-append conn (kept outcome) next.discarded)
      | inr (inr (next, awaited)) ↦
          let same : count conn next.discarded ≡ count conn (conn_of event) + count conn (held r) =
            sym (ap (λ t. count conn (left_by t)) awaited) ∙ now conn in
          ground (arith, awaited, same, each conn, await_relay-at_the_end conn u next events)
    ]

-- If the workers deliver no connection twice, and the call does not still wait for an event, then
-- each connection that they deliver, before the race ends or after, is either the one that is
-- returned or is closed once: none leaks, and the winner stays open. A call with neither a target
-- nor a relay candidate starts no workers.
pub establish_legacy_quic_path-count :
    (conn : ℕ) (u : Setup) (events : List Event)
    → ((c : ℕ) → count c (delivered (worker_events u events)) ≤ 1)
    → (establish_legacy_quic_path u events).0 ≢ waiting
    → count conn (kept (establish_legacy_quic_path u events).0)
        + count conn (establish_legacy_quic_path u events).1
      ≡ count conn (delivered (worker_events u events))
unfolding establish_legacy_quic_path new_race
establish_legacy_quic_path-count conn u events once over = elim (Bool-cases (is_undialable u)) [
  | inl none_at_all ↦ rw none_at_all refl
  | inr races ↦
      let end = wait_loop u (new_race u) events in
      let all : worker_events u events ≡ events = rw races refl in
      let sum =
        wait_loop-at_the_end conn u (new_race u) events
          (λ c. omega (arith, once c, ap (λ es. count c (delivered es)) all))
          (λ e. over (ground (arith, races, e))) in
      ground (
        arith,
        races,
        sum,
        over,
        ap (λ es. count conn (delivered es)) all,
        count-drain_race_losers conn end.1 end.0.0.discarded,
      )
]
