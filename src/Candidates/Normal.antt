-- ===== src/Candidates/Normal.antt =====
-- internal/transport/dilation.go, normalizedPeerCandidate: which advertised targets are accepted, and
-- under which priority.
use wormzy.Prelude.{
  ℕ, String, Bool, not, ◌||◌, ◌==◌, ◌!=◌, Text_eq, Nat_eq, Option, none, some, List, if◌then◌else◌,
  ltb, contains,
}
use wormzy.Prelude.Int.{pos}
use wormzy.Session.{Candidate}
use wormzy.Candidates.{
  Ip4, Texts, is_usable_external_ipv4, is_unspecified, is_multicast, is_loopback,
}

abbrev pub udp_candidate : String → String → ℕ → Candidate
udp_candidate kind addr priority = record {
  kind = kind;
  proto = "udp";
  addr = addr;
  priority = pos priority;
}

-- The switch on the type, for a target that is an IPv4 address with a port.
unfoldable pub accept_target : String → Ip4 → String → Bool → Bool → Option Candidate
accept_target typ ip addr prefer_local loopback =
    if typ == "reflexive"
    then if is_usable_external_ipv4 ip then some (udp_candidate typ addr 100) else none
    else if typ == "upnp"
    then if is_usable_external_ipv4 ip then some (udp_candidate typ addr 110) else none
    else if typ == "local" || typ == "legacy-local"
    then if not prefer_local || (is_unspecified ip || (is_multicast ip || is_loopback ip))
      then none
      else some (udp_candidate typ addr (if typ == "legacy-local" then 5 else 60))
    else if typ == "loopback"
    then if not loopback || not (is_loopback ip) then none else some (udp_candidate typ addr 120)
    else if typ == "legacy-public"
    then if is_usable_external_ipv4 ip then some (udp_candidate typ addr 10) else none
    else none

module _ ⦃T : Texts⦄ where
  -- The address and the port of a text, the port from 1 to 65535.
  unfoldable pub target_of : String → Option (Ip4 × ℕ)
  target_of addr = elim (T.split_host_port addr) [
    | none ↦ none
    | some (host, port_text) ↦ elim (T.atoi port_text) [
      | none ↦ none
      | some port ↦
          if port == 0 || ltb 65535 port
          then none
          else elim (T.parse_ip4 host) [ none ↦ none | some ip ↦ some (ip, port) ]
    ]
  ]

  abbrev pub accept : Option (Ip4 × ℕ) → String → Bool → Bool → Option Candidate
  accept none typ prefer_local loopback = none
  accept (some (ip, port)) typ prefer_local loopback =
      accept_target typ ip (T.join ip port) prefer_local loopback

  unfoldable pub normalized_peer_candidate :
      Candidate → Bool → Bool → List String → Option Candidate
  normalized_peer_candidate candidate prefer_local loopback allowed_relays =
      let typ = T.plain candidate.kind in
      let proto = T.plain candidate.proto in
      if proto != "udp" || candidate.addr == ""
      then none
      else if typ == "relay"
      then if contains allowed_relays candidate.addr
        then some (udp_candidate "relay" candidate.addr 40)
        else none
      else accept (target_of candidate.addr) typ prefer_local loopback
