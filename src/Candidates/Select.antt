-- ===== src/Candidates/Select.antt =====
-- internal/transport/dilation.go: buildCandidates, and selectPeerCandidates with its order.
use wormzy.Prelude.{
  ℕ, ◌+◌, ◌-◌, String, Bool, true, not, ◌&&◌, ◌||◌, ◌==◌, ◌!=◌, Text_eq, Nat_eq, Option, none, some,
  List, [], ◌∷◌, ◌++◌, if◌then◌else◌, ltb, some_of,
}
use wormzy.Prelude.Int.{ℤ, pos, negsuc, ltb_ℤ}
use wormzy.Prelude.Fallible.{Fallible, ok, fail, ◌>>◌}
use wormzy.Prelude.Sort.{sorted}
use wormzy.Session.{Candidate, SelfInfo}
use wormzy.Candidates.{
  Texts, CandidateError, invalid_loopback, no_candidates, validate_peer_candidate_metadata,
}
use wormzy.Candidates.Normal.{normalized_peer_candidate, udp_candidate}

-- seen[proto|addr]
abbrev pub same_target : Candidate → Candidate → Bool
same_target c other = other.proto == c.proto && other.addr == c.addr

abbrev pub is_seen : Candidate → List Candidate → Bool
is_seen c cs = some_of (same_target c) cs

-- `add` of buildCandidates
unfoldable pub add : Candidate → List Candidate → List Candidate
add c out = if c.addr == "" || is_seen c out then out else out ++ c ∷ []

unfoldable pub build_candidates : SelfInfo → Bool → String → String → List Candidate
build_candidates self loopback upnp_addr relay_addr =
    if loopback && self.local_addr != ""
    then add (udp_candidate "loopback" self.local_addr 120) []
    else add (udp_candidate "relay" relay_addr 40) (
        add (udp_candidate "local" self.local_addr 60) (
          add (udp_candidate "reflexive" self.public_addr 100)
            (add (udp_candidate "upnp" upnp_addr 110) [])))

-- addDirect
unfoldable pub add_direct : Candidate → List Candidate → List Candidate
add_direct c direct =
    if c.proto != "udp" || (c.addr == "" || is_seen c direct) then direct else direct ++ c ∷ []

abbrev raise : ℤ → ℕ → ℤ
raise (pos n) more = pos (n + more)
raise (negsuc n) more = if ltb n more then pos (more - n - 1) else negsuc (n - more)

module _ ⦃T : Texts⦄ where
  unfoldable pub candidate_race_weight : Bool → Candidate → ℤ
  candidate_race_weight prefer_local c =
      let kind = T.lower c.kind in
      if kind == "local" && prefer_local
      then raise c.priority 1000
      else if kind == "upnp" && not prefer_local
      then raise c.priority 950
      else if kind == "reflexive" && not prefer_local
      then raise c.priority 900
      else c.priority

  -- The test of sort.SliceStable.
  unfoldable pub races_before : Bool → Candidate → Candidate → Bool
  races_before prefer_local c d =
      let x = candidate_race_weight prefer_local c in
      let y = candidate_race_weight prefer_local d in
      if not (ltb_ℤ x y || ltb_ℤ y x) then ltb_ℤ d.priority c.priority else ltb_ℤ y x

  -- The relay addresses that the client itself has configured.
  unfoldable pub allowed_relays : List Candidate → List String
  allowed_relays [] = []
  allowed_relays (c ∷ cs) =
      if T.equal_fold c.kind "relay" && T.equal_fold c.proto "udp"
      then c.addr ∷ allowed_relays cs
      else allowed_relays cs

  -- The relay candidate and the direct ones.
  pub record Selected : Type 0 where
    pub relay : Option Candidate
    pub direct : List Candidate

  abbrev first_relay : Candidate → Option Candidate → Option Candidate
  first_relay c none = some c
  first_relay c (some d) = some d

  abbrev pub take_candidate : Option Candidate → Selected → Selected
  take_candidate none s = s
  take_candidate (some c) s =
      if c.kind == "relay"
      then record s { relay = first_relay c s.relay }
      else record s { direct = add_direct c s.direct }

  -- The loop over the peer's candidates.
  unfoldable pub collect : Bool → List String → List Candidate → Selected → Selected
  collect loopback relays [] s = s
  collect loopback relays (c ∷ cs) s =
      collect loopback relays cs
        (take_candidate (normalized_peer_candidate c loopback loopback relays) s)

  abbrev pub add_legacy : Option Candidate → Selected → Selected
  add_legacy none s = s
  add_legacy (some c) s = record s { direct = add_direct c s.direct }

  -- The addresses of a peer that sends no candidates. Local ones are preferred exactly under
  -- loopback.
  unfoldable pub with_legacy : Bool → List String → SelfInfo → Selected → Selected
  with_legacy loopback relays peer s =
      let legacy =
        if loopback
        then udp_candidate "legacy-local" peer.local_addr 5
        else udp_candidate "legacy-public" peer.public_addr 10 in
      if legacy.addr == ""
      then s
      else add_legacy (normalized_peer_candidate legacy loopback loopback relays) s

  abbrev pub usable : Bool → Selected → Fallible CandidateError (List Candidate × Option Candidate)
  usable loopback s = elim s.direct [
    | c ∷ cs ↦ ok (sorted (races_before loopback) (c ∷ cs), s.relay)
    | [] ↦ elim s.relay [ none ↦ fail no_candidates | some c ↦ ok ([], some c) ]
  ]

  unfoldable pub select_peer_candidates :
      SelfInfo → SelfInfo → Bool → Fallible CandidateError (List Candidate × Option Candidate)
  select_peer_candidates self peer loopback =
      validate_peer_candidate_metadata peer
      >> (if loopback && peer.local_addr != ""
          then elim (normalized_peer_candidate (udp_candidate "loopback" peer.local_addr 0) true
              true []) [ none ↦ fail invalid_loopback | some c ↦ ok (c ∷ [], none) ]
          else (let relays = allowed_relays self.candidates in
              let found =
                collect loopback relays peer.candidates (record { relay = none; direct = [] }) in
              usable loopback (with_legacy loopback relays peer found)))
