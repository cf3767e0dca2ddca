-- ===== src/Race.antt =====
-- internal/transport/path_selection.go, establishLegacyQUICPath: the race between direct connections
-- and the relay. The workers' results, the timers and the end of the context are events, in any
-- order; a connection is a number, and so is an error's text. Log lines, the status map that is only
-- logged, and the sockets are left out.
pub mod Turns
pub mod Conns
pub mod Ends
use wormzy.Prelude.{
  ℕ, ◌+◌, String, Bool, true, false, not, ◌&&◌, ◌==◌, Text_eq, Nat_eq, Option, none, some, List, [],
  ◌∷◌, ◌++◌, length, if◌then◌else◌,
}
use wormzy.Prelude.Int.{pos}
use wormzy.Prelude.Fallible.{Fallible, ok, fail}
use wormzy.Role.{send, recv}
use wormzy.Session.{Candidate}

-- `end` is the connection or the error; `matched` is what classifyCandidateByRemote finds for the
-- connection's remote address.
pub record DirectRaceResult : Type 0 where
  pub end : Fallible ℕ ℕ
  pub initiated : Bool
  pub candidate : Option Candidate
  pub matched : Option Candidate

pub data Event : Type 0 where
  -- case result := <-workers.directResults
  direct : DirectRaceResult → Event
  -- case <-provisionalTimerCh
  provisional_timer : Event
  -- case <-relayTimerCh
  relay_timer : Event
  -- case relay := <-workers.relayResults
  relay : Fallible ℕ ℕ → Event
  -- case <-workers.ctx.Done()
  done : Event

-- What the call is given: the mode, the targets that resolved, and the relay candidate.
pub record Setup : Type 0 where
  pub mode : String
  pub targets : List Candidate
  pub relay_candidate : Option Candidate

-- A provisional success: its connection and its result. A timer is armed exactly if its channel is
-- not nil. `discarded` lists the connections that were closed, the last first.
pub record Race : Type 0 where
  pub provisional : Option (ℕ × DirectRaceResult)
  pub provisional_armed : Bool
  pub relay_armed : Bool
  pub relay_in_flight : Bool
  pub relay_attempts : ℕ
  pub direct_outcome : String
  pub used_candidate : Candidate
  pub first_err : Option ℕ
  pub discarded : List ℕ

pub record LegacyQuicPath : Type 0 where
  pub conn : ℕ
  pub initiated : Bool
  pub candidate : Candidate
  pub direct_outcome : String
  pub over_relay : Bool

-- `undialable`: the error of a call without a target and without a relay candidate. `waiting`: no
-- event has come that ends the loop. The error of `failed` is `none` for that of the
-- context.
pub data Outcome : Type 0 where
  chosen : LegacyQuicPath → Outcome
  failed : Option ℕ → Outcome
  undialable : Outcome
  waiting : Outcome

unfoldable pub pick_fallback_direct_candidate : List Candidate → Candidate
pick_fallback_direct_candidate [] = record {
  kind = "direct-unknown";
  proto = "udp";
  addr = "";
  priority = pos 0;
}
pick_fallback_direct_candidate (c ∷ cs) = c

abbrev pub is_empty : List Candidate → Bool
is_empty [] = true
is_empty (c ∷ cs) = false

abbrev pub is_some {ℓ} : {A : Type ℓ} → Option A → Bool
is_some none = false
is_some (some a) = true

-- The state before the loop: the fallback to the relay is armed if there is a relay candidate.
unfoldable pub new_race : Setup → Race
new_race u = record {
  provisional = none;
  provisional_armed = false;
  relay_armed = is_some u.relay_candidate;
  relay_in_flight = false;
  relay_attempts = 0;
  direct_outcome =
      if is_empty u.targets && is_some u.relay_candidate then "no-response" else "pending";
  used_candidate = pick_fallback_direct_candidate u.targets;
  first_err = none;
  discarded = [];
}

-- firstErr, if it is not set
abbrev pub note_error : ℕ → Race → Race
note_error e r = elim r.first_err [ none ↦ record r { first_err = some e } | some _ ↦ r ]

abbrev pub discard : ℕ → Race → Race
discard conn r = record r { discarded = conn ∷ r.discarded }

-- Discards the provisional connection, if there is one.
abbrev pub drop_provisional : Race → Race
drop_provisional r = elim r.provisional [
  | none ↦ r
  | some (conn, _) ↦ record r { provisional = none; discarded = conn ∷ r.discarded }
]

-- The same, but the connection that is adopted is kept open.
abbrev pub replace_provisional : ℕ → Race → Race
replace_provisional adopted r = elim r.provisional [
  | none ↦ r
  | some (conn, _) ↦
      if conn == adopted
      then record r { provisional = none }
      else record r { provisional = none; discarded = conn ∷ r.discarded }
]

abbrev dialed : Bool → Option Candidate → Option Candidate
dialed true candidate = candidate
dialed false candidate = none

abbrev pub adopted_candidate : Race → DirectRaceResult → Candidate
adopted_candidate r result = elim (dialed result.initiated result.candidate) [
  | some c ↦ c
  | none ↦ elim result.matched [ some c ↦ c | none ↦ r.used_candidate ]
]

-- adoptDirect, and the path that is returned
unfoldable pub adopt_direct : Race → ℕ → DirectRaceResult → Outcome
adopt_direct r conn result = chosen (record {
  conn = conn;
  initiated = result.initiated;
  candidate = adopted_candidate r result;
  direct_outcome = "won";
  over_relay = false;
})

-- The outcome that is reported, if the race has not set one.
abbrev settled : Candidate → String → String
settled candidate outcome =
    if outcome == "pending"
    then if candidate.kind == "relay" then "quic-timeout" else "won"
    else outcome

-- The relay's connection is used: the sender initiates.
unfoldable pub adopt_relay : Setup → Race → String → ℕ → Outcome
adopt_relay u r outcome conn =
    let candidate : Candidate = elim u.relay_candidate [ none ↦ r.used_candidate | some c ↦ c ] in
    chosen (record {
      conn = conn;
      initiated = u.mode == send;
      candidate = candidate;
      direct_outcome = settled candidate outcome;
      over_relay = true;
    })
