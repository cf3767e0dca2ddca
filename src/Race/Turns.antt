-- ===== src/Race/Turns.antt =====
-- internal/transport/path_selection.go, establishLegacyQUICPath: the turns of the loop.
use wormzy.Prelude.{
  ℕ, ◌+◌, Bool, true, false, not, ◌&&◌, ◌==◌, Text_eq, none, some, List, [], ◌∷◌, ◌++◌,
  if◌then◌else◌,
}
use wormzy.Prelude.Fallible.{Fallible, ok, fail}
use wormzy.Role.{recv}
use wormzy.Race.{
  DirectRaceResult, Event, direct, provisional_timer, relay_timer, relay, done, Setup, Race,
  Outcome, failed, undialable, waiting, new_race, note_error, discard, drop_provisional,
  replace_provisional, adopt_direct, adopt_relay, is_some, is_empty,
}

-- One turn of the loop goes on, or ends it. If the context is done while an attempt is in flight,
-- the loop waits for the attempt's result.
pub data Turn : Type 0 where
  goes_on : Race → Turn
  ends : Race → Outcome → Turn
  awaits_relay : Race → Turn

abbrev pub same_direction : Bool → Bool → Bool
same_direction true b = b
same_direction false b = not b

unfoldable pub on_direct : Setup → Race → DirectRaceResult → Turn
on_direct u r result = elim result.end [
  | fail e ↦ goes_on (note_error e r)
  | ok conn ↦
      if same_direction result.initiated (u.mode == recv)
      then ends (record (replace_provisional conn r) { provisional_armed = false })
          (adopt_direct r conn result)
      else elim r.provisional [
        | none ↦ goes_on (record r { provisional = some (conn, result); provisional_armed = true })
        | some _ ↦ goes_on (discard conn r)
      ]
]

-- Adopts the provisional connection, or goes on without one.
abbrev adopt_provisional : Race → Turn → Turn
adopt_provisional r otherwise = elim r.provisional [
  | none ↦ otherwise
  | some (conn, result) ↦
      ends (record r { provisional = none; provisional_armed = false }) (adopt_direct r conn result)
]

unfoldable pub on_provisional_timer : Race → Turn
on_provisional_timer r =
    if r.provisional_armed
    then adopt_provisional r (goes_on (record r { provisional_armed = false }))
    else goes_on r

-- scheduleRelayAttempt arms the timer again.
unfoldable pub on_relay_timer : Setup → Race → Turn
on_relay_timer u r =
    if not r.relay_armed
    then goes_on r
    else if not (is_some u.relay_candidate)
    then goes_on (record r { relay_armed = false })
    else if r.relay_in_flight
    then goes_on r
    else goes_on (record r {
      relay_attempts = r.relay_attempts + 1;
      direct_outcome = if r.direct_outcome == "pending" then "quic-timeout" else r.direct_outcome;
      relay_in_flight = true;
    })

unfoldable pub on_relay : Setup → Race → Fallible ℕ ℕ → Turn
on_relay u r (fail e) = goes_on (note_error e (record r { relay_in_flight = false }))
on_relay u r (ok conn) =
    ends
      (record (drop_provisional r) {
        relay_in_flight = false;
        relay_armed = false;
        provisional_armed = false;
      })
      (adopt_relay u r (if is_empty u.targets then "no-response" else r.direct_outcome) conn)

unfoldable pub on_done : Race → Turn
on_done r =
    adopt_provisional r (if r.relay_in_flight then awaits_relay r else ends r (failed r.first_err))

-- The result of the attempt that was in flight when the context was done.
unfoldable pub on_last_relay : Setup → Race → Fallible ℕ ℕ → Race × Outcome
on_last_relay u r (ok conn) =
    (record r { relay_in_flight = false }, adopt_relay u r r.direct_outcome conn)
on_last_relay u r (fail e) =
    let noted = note_error e (record r { relay_in_flight = false }) in
    (noted, failed noted.first_err)

unfoldable pub turn : Setup → Race → Event → Turn
turn u r (direct result) = on_direct u r result
turn u r provisional_timer = on_provisional_timer r
turn u r relay_timer = on_relay_timer u r
turn u r (relay result) = on_relay u r result
turn u r done = on_done r

-- The state and the outcome of the loop, and the events that it has not read.
unfoldable pub await_relay : Setup → Race → List Event → (Race × Outcome) × List Event
await_relay u r [] = ((r, waiting), [])
await_relay u r (relay result ∷ events) = (on_last_relay u r result, events)
await_relay u r (event ∷ events) = let after = await_relay u r events in (after.0, event ∷ after.1)

unfoldable pub wait_loop : Setup → Race → List Event → (Race × Outcome) × List Event
wait_loop u r [] = ((r, waiting), [])
wait_loop u r (event ∷ events) = elim (turn u r event) [
  | goes_on next ↦ wait_loop u next events
  | ends next outcome ↦ ((next, outcome), events)
  | awaits_relay next ↦ await_relay u next events
]

-- The connection that an event delivers.
unfoldable pub conn_of : Event → List ℕ
conn_of (direct result) = elim result.end [ ok conn ↦ conn ∷ [] | fail e ↦ [] ]
conn_of (relay (ok conn)) = conn ∷ []
conn_of _ = []

-- finish: drainRaceLosers closes what the workers deliver after the loop.
unfoldable pub drain_race_losers : List Event → List ℕ → List ℕ
drain_race_losers [] discarded = discarded
drain_race_losers (event ∷ events) discarded = drain_race_losers events (conn_of event ++ discarded)

-- The loop has ended unless it still waits for an event.
abbrev pub closed : Outcome → List ℕ → List Event → List ℕ
closed waiting discarded late = discarded
closed _ discarded late = drain_race_losers late discarded

-- A call that has no target and no relay candidate: it returns before it starts its workers.
abbrev pub is_undialable : Setup → Bool
is_undialable u = is_empty u.targets && not (is_some u.relay_candidate)

-- What happens to a call once its workers run, if they do.
abbrev pub worker_events : Setup → List Event → List Event
worker_events u events = if is_undialable u then [] else events

-- The call: how it ends, and the connections that it has closed.
unfoldable pub establish_legacy_quic_path : Setup → List Event → Outcome × List ℕ
establish_legacy_quic_path u events =
    if is_undialable u
    then (undialable, [])
    else (let ((r, outcome), late) = wait_loop u (new_race u) events in
        (outcome, closed outcome r.discarded late))
