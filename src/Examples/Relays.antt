-- ===== src/Examples/Relays.antt =====
-- The relay at concrete inputs.
use wormzy.Prelude.{
  ◌≤◌, String, list_eq, none, some, List, [], ◌∷◌, length, ◌≡◌, ◌≢◌, ◌↔◌, refl, arith, eq_iff,
}
use wormzy.Prelude.Dict.{lookup, insert, erase}
use wormzy.Encoding.{hex_decode, hex_digit}
use wormzy.Role.{send, recv, valid_role}
use wormzy.Relay.{
  RelayHello, RelayServer, RelayServerClient, paired_with, register, retain, relay_tokens_equal,
  waiting_for_source, valid_relay_hello, admit_connection, release_connection, unregister_waiting,
  live_count, effective_live_limit, effective_live_per_ip_limit, effective_waiting_limit,
  effective_waiting_per_ip_limit,
}
use wormzy.Relay.Admission.{Tracks, opens}
use wormzy.Relay.Registry.{IsBounded}
use wormzy.Relay.Pairing.{SameProof, register-register, register-eq-paired}
use wormzy.Relay.Lifecycle.{System, Event, accept, hello, ends, run, on_ends}
use wormzy.Relay.Lifecycle.Conns.{find, put, drop, ips}
use wormzy.Relay.Lifecycle.Invariant.Runs.{fresh, run-fresh_idle, run-fresh_bounds}

abbrev proof : String
proof = "00112233445566778899aabbccddeeff00112233445566778899aabbccddeeff"

abbrev hello_from : String → RelayHello
hello_from role = record { session = proof; token = proof; role = role }

-- Two peers of one session come, are paired, and end.
abbrev visits : List Event
visits =
    accept "192.0.2.1"
    ∷ accept "192.0.2.2"
    ∷ hello 0 (hello_from "send")
    ∷ hello 1 (hello_from "recv")
    ∷ []

abbrev paired_system : System
paired_system = run (fresh 4 2 4 2) visits

abbrev quiet_system : System
quiet_system = run (fresh 4 2 4 2) (accept "192.0.2.1" ∷ hello 0 (hello_from "send") ∷ ends 0 ∷ [])

run-fresh_idle_example :
    (quiet_system.server.live_n ≡ 0)
    × (live_count "192.0.2.1" quiet_system.server.live ≡ 0)
    × (quiet_system.server.waiting ≡ [])
unfolding run on_ends find put drop register retain valid_relay_hello hex_digit hex_decode lookup
    insert erase admit_connection release_connection unregister_waiting waiting_for_source
    valid_role
run-fresh_idle_example =
    run-fresh_idle 4 2 4 2 (accept "192.0.2.1" ∷ hello 0 (hello_from "send") ∷ ends 0 ∷ [])
      "192.0.2.1" refl

run-fresh_bounds_example :
    (paired_system.server.live_n ≡ length paired_system.conns)
    × (live_count "192.0.2.1" paired_system.server.live
        ≡ opens "192.0.2.1" (ips paired_system.conns))
    × (length paired_system.conns ≤ effective_live_limit paired_system.server)
    × (opens "192.0.2.1" (ips paired_system.conns)
        ≤ effective_live_per_ip_limit paired_system.server)
    × (length paired_system.server.waiting ≤ effective_waiting_limit paired_system.server)
    × (waiting_for_source "192.0.2.1" paired_system.server.waiting
        ≤ effective_waiting_per_ip_limit paired_system.server)
    × (paired_system.server.waiting_peers ≡ length paired_system.server.waiting)
run-fresh_bounds_example = run-fresh_bounds 4 2 4 2 visits "192.0.2.1"

abbrev first : RelayServerClient
first = record { conn = 0; hello = hello_from "send"; source_ip = "192.0.2.1" }

abbrev second : RelayServerClient
second = record { conn = 1; hello = hello_from "recv"; source_ip = "192.0.2.2" }

abbrev open_relay : RelayServer
open_relay = (fresh 4 2 4 2).server

abbrev waiting_relay : RelayServer
waiting_relay = record open_relay { waiting = (proof, first) ∷ []; waiting_peers = 1 }

register-register_example :
    ((register (register open_relay first).1 second).0
      ≡ paired_with (record { a = first; b = second }))
    ↔ ((send ≢ recv) × SameProof proof proof)
unfolding register lookup waiting_for_source
register-register_example = register-register open_relay first second refl refl

register-eq-paired_example :
    (lookup proof waiting_relay.waiting ≡ some first)
    × (second ≡ second)
    × (send ≢ recv)
    × SameProof proof proof
    × (lookup proof open_relay.waiting ≡ none)
    × ((k : String) → proof ≢ k → lookup k open_relay.waiting ≡ lookup k waiting_relay.waiting)
unfolding register lookup erase relay_tokens_equal hex_decode hex_digit list_eq
register-eq-paired_example =
    register-eq-paired waiting_relay second (refl, tt) (record { a = first; b = second })
      (record open_relay { paired = 0 ∷ [] }) refl

open_relay-IsBounded : IsBounded open_relay
unfolding lookup waiting_for_source
open_relay-IsBounded = record {
  distinct = tt;
  keyed = λ k w l. absurd (ground arith);
  total = omega arith;
  each = λ ip. omega arith;
  gauge = refl;
}

open_relay-Tracks : Tracks open_relay []
unfolding opens lookup
open_relay-Tracks = record { total = refl; each = λ ip. refl; distinct = tt }

abbrev one_open : RelayServer
one_open = record open_relay { live = ("192.0.2.1", 1) ∷ []; live_n = 1 }

one_open-Tracks : Tracks one_open ("192.0.2.1" ∷ [])
unfolding opens lookup
one_open-Tracks = record {
  total = refl;
  each = λ ip. ground (arith, eq_iff "192.0.2.1" ip);
  distinct = (refl, tt);
}
