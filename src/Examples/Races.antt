-- ===== src/Examples/Races.antt =====
-- Races of a receiver with one direct target and a relay.
use wormzy.Prelude.{ℕ, ◌+◌, ◌≤◌, true, false, none, some, List, [], ◌∷◌, ◌≡◌, ◌≢◌, arith}
use wormzy.Prelude.Int.{pos}
use wormzy.Prelude.Fallible.{ok}
use wormzy.Session.{Candidate}
use wormzy.Race.{
  Setup, Event, direct, relay, relay_timer, done, DirectRaceResult, waiting, new_race,
  pick_fallback_direct_candidate, adopt_direct,
}
use wormzy.Race.Turns.{
  establish_legacy_quic_path, wait_loop, turn, on_direct, on_relay_timer, conn_of, worker_events,
}
use wormzy.Race.Conns.{count, delivered, kept, establish_legacy_quic_path-count}
use wormzy.Race.Ends.{establish_legacy_quic_path-ends}

abbrev local : Candidate
local = record { kind = "local"; proto = "udp"; addr = "10.0.0.2:9"; priority = pos 1 }

abbrev over_relay : Candidate
over_relay = record {
  kind = "relay";
  proto = "quic";
  addr = "relay.example:3478";
  priority = pos 0;
}

abbrev receiver : Setup
receiver = record { mode = "recv"; targets = local ∷ []; relay_candidate = some over_relay }

abbrev accepts : DirectRaceResult
accepts = record { end = ok 1; initiated = false; candidate = none; matched = some local }

abbrev dials : DirectRaceResult
dials = record { end = ok 2; initiated = true; candidate = some local; matched = none }

abbrev events : List Event
events = direct accepts ∷ relay_timer ∷ direct dials ∷ relay (ok 3) ∷ []

once : (c : ℕ) → count c (delivered events) ≤ 1
unfolding conn_of
once c = ground arith

ended : (establish_legacy_quic_path receiver events).0 ≢ waiting
unfolding establish_legacy_quic_path wait_loop turn on_direct on_relay_timer new_race
    pick_fallback_direct_candidate adopt_direct
ended e = ground (arith, e)

establish_legacy_quic_path-count_example :
    count 1 (kept (establish_legacy_quic_path receiver events).0)
      + count 1 (establish_legacy_quic_path receiver events).1
    ≡ count 1 (delivered (worker_events receiver events))
establish_legacy_quic_path-count_example =
    establish_legacy_quic_path-count 1 receiver events once ended

establish_legacy_quic_path-ends_example :
    (establish_legacy_quic_path receiver (relay_timer ∷ done ∷ relay (ok 3) ∷ [])).0 ≢ waiting
establish_legacy_quic_path-ends_example =
    establish_legacy_quic_path-ends receiver [] [] (ok 3) (relay_timer ∷ [])
