-- ===== src/Candidates.antt =====
-- internal/transport/dilation.go: the candidates that a peer advertises, and those that are dialed.
-- `strings`, `net` and `strconv` on texts are a parameter.
pub mod Normal
pub mod Select
pub mod Distinct
pub mod External
pub mod Offers
pub mod Safety
use wormzy.Prelude.{
  ℕ, ◌+◌, ◌-◌, String, Bool, true, false, not, ◌&&◌, ◌||◌, ◌==◌, Nat_eq, Text_eq, Option, none,
  some, List, [], ◌∷◌, if◌then◌else◌, ltb, leb, codes, length, len, every, ◌≡◌,
}
use wormzy.Prelude.Int.{ℤ, pos, negsuc, ltb_ℤ}
use wormzy.Prelude.Fallible.{Fallible, ok, fail, ◌>>◌, require}
use wormzy.Session.{Candidate, SelfInfo}

-- An IPv4 address, by its four bytes.
pub record Ip4 : Type 0 where
  pub a : ℕ
  pub b : ℕ
  pub c : ℕ
  pub d : ℕ

-- `plain` is strings.ToLower(strings.TrimSpace(s)), `lower` strings.ToLower. `parse_ip4` is
-- net.ParseIP(s).To4(), `atoi` a strconv.Atoi that succeeds on a number that is not negative, and
-- `join` writes an address with its port.
pub record Texts : Type 0 where
  pub plain : String → String
  pub plain_legacy : plain "legacy-public" ≡ "legacy-public"
  pub lower : String → String
  pub lower_upnp : lower "upnp" ≡ "upnp"
  pub lower_reflexive : lower "reflexive" ≡ "reflexive"
  pub lower_legacy : lower "legacy-public" ≡ "legacy-public"
  pub equal_fold : String → String → Bool
  pub split_host_port : String → Option (String × String)
  pub atoi : String → Option ℕ
  pub parse_ip4 : String → Option Ip4
  pub join : Ip4 → ℕ → String
  pub byte_length : String → ℕ

pub data CandidateError : Type 0 where
  too_many_candidates invalid_endpoint invalid_text priority_out_of_range : CandidateError
  invalid_loopback no_candidates : CandidateError

abbrev pub max_peer_candidate_count : ℕ
max_peer_candidate_count = 16

abbrev pub max_candidate_field_length : ℕ
max_candidate_field_length = 256

abbrev pub max_candidate_priority : ℤ
max_candidate_priority = pos 10000

abbrev pub min_candidate_priority : ℤ
min_candidate_priority = negsuc 9999

abbrev pub is_unspecified : Ip4 → Bool
is_unspecified ip = ip.a == 0 && (ip.b == 0 && (ip.c == 0 && ip.d == 0))

abbrev pub is_loopback : Ip4 → Bool
is_loopback ip = ip.a == 127

abbrev pub is_multicast : Ip4 → Bool
is_multicast ip = leb 224 ip.a && leb ip.a 239

abbrev pub is_link_local : Ip4 → Bool
is_link_local ip = ip.a == 169 && ip.b == 254

abbrev pub is_private : Ip4 → Bool
is_private ip =
    ip.a == 10 || ((ip.a == 172 && (leb 16 ip.b && leb ip.b 31)) || (ip.a == 192 && ip.b == 168))

abbrev pub is_broadcast : Ip4 → Bool
is_broadcast ip = ip.a == 255 && (ip.b == 255 && (ip.c == 255 && ip.d == 255))

abbrev pub is_global_unicast : Ip4 → Bool
is_global_unicast ip =
    not (is_broadcast ip)
    && (not (is_unspecified ip)
        && (not (is_loopback ip) && (not (is_multicast ip) && not (is_link_local ip))))

-- isUsableExternalIPv4 (internal/transport/upnp.go)
unfoldable pub is_usable_external_ipv4 : Ip4 → Bool
is_usable_external_ipv4 ip =
    if not (is_global_unicast ip)
      || (is_private ip || (is_loopback ip || (is_link_local ip || is_unspecified ip)))
    then false
    else if ip.a == 0
    then false
    else if ip.a == 100 && (leb 64 ip.b && ltb ip.b 128)
    then false
    else if ip.a == 192 && (ip.b == 0 && (ip.c == 0 || ip.c == 2))
    then false
    else if ip.a == 192 && (ip.b == 88 && ip.c == 99)
    then false
    else if ip.a == 198 && (ip.b == 18 || ip.b == 19)
    then false
    else if ip.a == 198 && (ip.b == 51 && ip.c == 100)
    then false
    else if ip.a == 203 && (ip.b == 0 && ip.c == 113)
    then false
    else not (leb 224 ip.a)

module _ ⦃T : Texts⦄ where
  -- An invalid encoding has a rune that is not ASCII, so it is refused as well.
  unfoldable pub safe_candidate_text : String → Bool
  safe_candidate_text value =
      not (value == "" || ltb max_candidate_field_length (T.byte_length value))
      && every (λ char. not (ltb char 33 || ltb 126 char)) (codes value)

  abbrev empty_or_safe : String → Bool
  empty_or_safe value = value == "" || safe_candidate_text value

  -- The checks of the candidates, one after the other.
  unfoldable pub check_candidates : List Candidate → Fallible CandidateError (Unit {0})
  check_candidates [] = ok tt
  check_candidates (c ∷ cs) =
      require
        (safe_candidate_text c.kind && (safe_candidate_text c.proto && safe_candidate_text c.addr))
        invalid_text
      >> (require
            (not
              (ltb_ℤ c.priority min_candidate_priority || ltb_ℤ max_candidate_priority c.priority))
            priority_out_of_range
          >> check_candidates cs)

  unfoldable pub validate_peer_candidate_metadata : SelfInfo → Fallible CandidateError (Unit {0})
  validate_peer_candidate_metadata peer = do
    require (not (ltb max_peer_candidate_count (length peer.candidates))) too_many_candidates
    require (empty_or_safe peer.public_addr && empty_or_safe peer.local_addr) invalid_endpoint
    check_candidates peer.candidates
