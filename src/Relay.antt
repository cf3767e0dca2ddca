-- ===== src/Relay.antt =====
pub mod Admission
pub mod Registry
pub mod Frames
pub mod Lifecycle
pub mod Pairing
-- internal/transport/relay_server.go: the tables that the relay keeps under its lock. A client's
-- connection is a number, its identity as a pointer. A map that Go leaves nil is an empty one.
use wormzy.Prelude.{
  ℕ, ◌+◌, ◌-◌, String, Bool, true, false, ◌&&◌, ◌||◌, not, ◌==◌, Nat_eq, Text_eq, List_eq, Option,
  none, some, List, [], ◌∷◌, if◌then◌else◌, ltb, leb, length, codes,
}
use wormzy.Prelude.Dict.{Dict, lookup, insert, erase}
use wormzy.Encoding.{hex_decode}
use wormzy.Role.{valid_role}
use mathlib.Core.Option

abbrev pub default_relay_waiting_limit : ℕ
default_relay_waiting_limit = 1024

abbrev pub default_relay_waiting_per_ip_limit : ℕ
default_relay_waiting_per_ip_limit = 8

abbrev pub default_relay_live_limit : ℕ
default_relay_live_limit = 2048

abbrev pub default_relay_live_per_ip_limit : ℕ
default_relay_live_per_ip_limit = 16

abbrev pub relay_identifier_length : ℕ
relay_identifier_length = 32

pub record RelayHello : Type 0 where
  pub session : String
  pub token : String
  pub role : String

pub record RelayServerClient : Type 0 where
  pub conn : ℕ
  pub hello : RelayHello
  pub source_ip : String

pub record RelayPair : Type 0 where
  pub a : RelayServerClient
  pub b : RelayServerClient

pub data RelayError : Type 0 where
  relay_capacity relay_peer_mismatch : RelayError

-- A limit of 0 stands for one that is not set. `paired` holds the connections whose channel of
-- that name is closed, `waiting_peers` the telemetry gauge.
pub record RelayServer : Type 0 where
  pub waiting : Dict RelayServerClient
  pub live : Dict ℕ
  pub live_n : ℕ
  pub waiting_limit : ℕ
  pub waiting_per_ip_limit : ℕ
  pub live_limit : ℕ
  pub live_per_ip_limit : ℕ
  pub paired : List ℕ
  pub waiting_peers : ℕ

-- validateRelayHello(hello) == nil
unfoldable pub valid_identifier : String → Bool
valid_identifier encoded = elim (hex_decode (codes encoded)) [
  | none ↦ false
  | some raw ↦ length raw == relay_identifier_length
]

unfoldable pub valid_relay_hello : RelayHello → Bool
unfolding valid_identifier
valid_relay_hello hello =
    valid_role hello.role && (valid_identifier hello.session && valid_identifier hello.token)

-- relayTokensEqual, for two decoded proofs
abbrev same_token : Option (List ℕ) → Option (List ℕ) → Bool
same_token (some left) (some right) =
    length left == relay_identifier_length
    && (length right == relay_identifier_length && left == right)
same_token _ _ = false

unfoldable pub relay_tokens_equal : String → String → Bool
relay_tokens_equal left right = same_token (hex_decode (codes left)) (hex_decode (codes right))

abbrev configured : ℕ → ℕ → ℕ
configured limit fallback = if ltb 0 limit then limit else fallback

abbrev pub effective_waiting_limit : RelayServer → ℕ
effective_waiting_limit s = configured s.waiting_limit default_relay_waiting_limit

abbrev pub effective_waiting_per_ip_limit : RelayServer → ℕ
effective_waiting_per_ip_limit s =
    configured s.waiting_per_ip_limit default_relay_waiting_per_ip_limit

abbrev pub effective_live_limit : RelayServer → ℕ
effective_live_limit s = configured s.live_limit default_relay_live_limit

abbrev pub effective_live_per_ip_limit : RelayServer → ℕ
effective_live_per_ip_limit s = configured s.live_per_ip_limit default_relay_live_per_ip_limit

-- waitingForSource
unfoldable pub waiting_for_source : String → Dict RelayServerClient → ℕ
waiting_for_source ip [] = 0
waiting_for_source ip ((k, c) ∷ m) = (if c.source_ip == ip then 1 else 0) + waiting_for_source ip m

-- s.live[sourceIP], which is 0 for a missing key
abbrev pub live_count : String → Dict ℕ → ℕ
live_count ip m = Option.get_or (lookup ip m) 0

unfoldable pub admit_connection : RelayServer → String → Bool × RelayServer
admit_connection s ip =
    if leb (effective_live_limit s) s.live_n
      || leb (effective_live_per_ip_limit s) (live_count ip s.live)
    then (false, s)
    else (
      true,
      record s { live = insert ip (live_count ip s.live + 1) s.live; live_n = s.live_n + 1 },
    )

unfoldable pub release_connection : RelayServer → String → RelayServer
release_connection s ip =
    let live =
      if ltb 1 (live_count ip s.live)
      then insert ip (live_count ip s.live - 1) s.live
      else erase ip s.live in
    let live_n = if ltb 0 s.live_n then s.live_n - 1 else s.live_n in
    record s { live = live; live_n = live_n }

pub data Registration : Type 0 where
  paired_with : RelayPair → Registration
  retained : Registration
  rejected : RelayError → Registration

abbrev set_waiting : RelayServer → Dict RelayServerClient → RelayServer
set_waiting s waiting = record s { waiting = waiting; waiting_peers = length waiting }

-- A first peer of its session: it is retained, if both limits leave room.
unfoldable pub retain : RelayServer → RelayServerClient → Registration × RelayServer
retain s client =
    if leb (effective_waiting_limit s) (length s.waiting)
      || leb (effective_waiting_per_ip_limit s) (waiting_for_source client.source_ip s.waiting)
    then (rejected relay_capacity, s)
    else (retained, set_waiting s (insert client.hello.session client s.waiting))

-- A second peer: the pair is formed if the roles differ and the proofs agree.
unfoldable pub join :
    RelayServer → RelayServerClient → RelayServerClient → Registration × RelayServer
join s other client =
    if other.hello.role == client.hello.role
      || not (relay_tokens_equal other.hello.token client.hello.token)
    then (rejected relay_peer_mismatch, s)
    else (
      paired_with (record { a = other; b = client }),
      set_waiting (record s { paired = other.conn ∷ s.paired })
          (erase client.hello.session s.waiting),
    )

unfoldable pub register : RelayServer → RelayServerClient → Registration × RelayServer
unfolding retain join
register s client = elim (lookup client.hello.session s.waiting) [
  | none ↦ retain s client
  | some other ↦ join s other client
]

unfoldable pub unregister_waiting : RelayServer → RelayServerClient → Bool × RelayServer
unregister_waiting s client = elim (lookup client.hello.session s.waiting) [
  | none ↦ (false, s)
  | some existing ↦
      if existing.conn == client.conn
      then (true, set_waiting s (erase client.hello.session s.waiting))
      else (false, s)
]
