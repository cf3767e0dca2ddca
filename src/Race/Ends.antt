-- ===== src/Race/Ends.antt =====
-- internal/transport/path_selection.go: the race ends when its context does.
use wormzy.Prelude.{List, [], ◌∷◌, ◌++◌, ℕ, ◌≡◌, ◌≢◌, arith, Bool-cases, inl, inr, ap, ◌∙◌}
use mathlib.Core.List.{append_assoc}
use wormzy.Prelude.Fallible.{Fallible, ok, fail}
use wormzy.Race.{
  Event, direct, provisional_timer, relay_timer, relay, done, Setup, Race, waiting, new_race,
  adopt_relay, adopt_direct,
}
use wormzy.Race.Turns.{
  turn, on_done, on_last_relay, await_relay, wait_loop, establish_legacy_quic_path, goes_on, ends,
  on_direct, on_provisional_timer, on_relay_timer, on_relay, is_undialable,
}
use wormzy.Race.Conns.{Turn-cases}

-- A result of the relay ends the wait for it.
await_relay-ends :
    (u : Setup) (r : Race) (before after : List Event) (result : Fallible ℕ ℕ)
    → (await_relay u r (before ++ relay result ∷ after)).0.1 ≢ waiting
unfolding await_relay on_last_relay adopt_relay
await_relay-ends u r [] after (ok c) e = ground (arith, e)
await_relay-ends u r [] after (fail x) e = ground (arith, e)
await_relay-ends u r (relay (ok c) ∷ before) after result e = ground (arith, e)
await_relay-ends u r (relay (fail x) ∷ before) after result e = ground (arith, e)
await_relay-ends u r (direct d ∷ before) after result e = await_relay-ends u r before after result e
await_relay-ends u r (provisional_timer ∷ before) after result e =
    await_relay-ends u r before after result e
await_relay-ends u r (relay_timer ∷ before) after result e =
    await_relay-ends u r before after result e
await_relay-ends u r (done ∷ before) after result e = await_relay-ends u r before after result e

turn-ends : (u : Setup) (r next : Race) (event : Event) → turn u r event ≢ ends next waiting
unfolding turn on_done on_direct on_provisional_timer on_relay_timer on_relay adopt_relay
    adopt_direct
turn-ends u r next (direct result) e = ground (arith, e)
turn-ends u r next provisional_timer e = ground (arith, e)
turn-ends u r next relay_timer e = ground (arith, e)
turn-ends u r next (relay (ok c)) e = ground (arith, e)
turn-ends u r next (relay (fail x)) e = ground (arith, e)
turn-ends u r next done e = ground (arith, e)

done-ends : (u : Setup) (r next : Race) → turn u r done ≢ goes_on next
unfolding turn on_done adopt_direct
done-ends u r next e = ground (arith, e)

module _ (u : Setup) (between after : List Event) (result : Fallible ℕ ℕ) where
  wait_loop-ends :
      (before : List Event) (r : Race)
      → (wait_loop u r (before ++ done ∷ (between ++ relay result ∷ after))).0.1 ≢ waiting
  unfolding wait_loop
  wait_loop-ends [] r e = elim (Turn-cases (turn u r done)) [
    | inl (next, on) ↦ done-ends u r next on
    | inr (inl (next, outcome, over)) ↦ turn-ends u r next done (ground (arith, over, e))
    | inr (inr (next, awaited)) ↦
        await_relay-ends u next between after result (ground (arith, awaited, e))
  ]
  wait_loop-ends (event ∷ before) r e = elim (Turn-cases (turn u r event)) [
    | inl (next, on) ↦ wait_loop-ends before next (ground (arith, on, e))
    | inr (inl (next, outcome, over)) ↦ turn-ends u r next event (ground (arith, over, e))
    | inr (inr (next, awaited)) ↦
        let events = before ++ done ∷ (between ++ relay result ∷ after) in
        let stuck : (await_relay u next events).0.1 ≡ waiting = ground (arith, awaited, e) in
        await_relay-ends u next (before ++ done ∷ between) after result (
          ap (λ es. (await_relay u next es).0.1)
            (append_assoc before (done ∷ between) (relay result ∷ after))
          ∙ stuck)
  ]

  -- If the context of a race ends, and a result of the relay comes after that, then the call ends,
  -- whatever else happens before and between.
  pub establish_legacy_quic_path-ends :
      (before : List Event)
      → (establish_legacy_quic_path u (before ++ done ∷ (between ++ relay result ∷ after))).0
        ≢ waiting
  unfolding establish_legacy_quic_path
  establish_legacy_quic_path-ends before = elim (Bool-cases (is_undialable u)) [
    | inl none_at_all ↦ λ e. ground (arith, none_at_all, e)
    | inr races ↦ λ e. wait_loop-ends before (new_race u) (ground (arith, races, e))
  ]
