-- ===== src/Examples/Peers.antt =====
-- A peer's metadata, its proof, and pairing codes, with primitives that are easy to compute.
use wormzy.Prelude.{
  ℕ, ◌<◌, len, ◌==◌, Text_eq, List_eq, Nat_eq, none, some, List, [], ◌∷◌, map, All, codes,
  if◌then◌else◌, take, drop, ◌≡◌, ◌↔◌, refl, arith, zero, suc,
}
use mathlib.Core.List.{Permᴰ}
use mathlib.Core.List.Permᴰ
use wormzy.Prelude.Int.{pos}
use wormzy.Prelude.Fallible.{ok}
use wormzy.Prelude.Sort.{sorted, place}
use wormzy.Session.{Candidate, SelfInfo}
use wormzy.Encoding.{hex_encode}
use wormzy.Candidates.{
  Texts, Ip4, validate_peer_candidate_metadata, check_candidates, safe_candidate_text,
  is_usable_external_ipv4,
}
use wormzy.Candidates.Normal.{normalized_peer_candidate, target_of, accept_target}
use wormzy.Candidates.Select.{
  select_peer_candidates, collect, with_legacy, allowed_relays, add_direct,
}
use wormzy.Candidates.Safety.{IsDialable, select_peer_candidates-IsDialable}
use wormzy.Signaling.{
  Primitives, SelfSnapshotAuthMessage, self_snapshot_digest, self_snapshot_mac,
  new_self_snapshot_auth_message, verify_self_snapshot_auth_message,
}
use wormzy.Signaling.Metadata.{SameMetadata, self_snapshot_digest-SameMetadata}
use wormzy.Signaling.Snapshot.{
  Proves, verify_self_snapshot_auth_message_iff, verify-new_self_snapshot_auth_message,
}
use wormzy.Rendezvous.{
  is_code_symbol, generate_code_from, normalize_code, normal_symbols, normal_symbol,
}
use wormzy.Rendezvous.Codes.{IsCanonical, normalize_code-IsCanonical}
use wormzy.Rendezvous.Draws.{bytes_giving, bytes_giving-eq, generate_code_from-finds}

abbrev dns : Ip4
dns = record { a = 8; b = 8; c = 8; d = 8 }

abbrev texts : Texts
texts = record {
  plain = λ s. s;
  plain_legacy = refl;
  lower = λ s. s;
  lower_upnp = refl;
  lower_reflexive = refl;
  lower_legacy = refl;
  equal_fold = λ s t. s == t;
  split_host_port = λ s. if s == "8.8.8.8:9" then some ("8.8.8.8", "9") else none;
  atoi = λ s. some 9;
  parse_ip4 = λ s. some dns;
  join = λ ip port. "8.8.8.8:9";
  byte_length = λ s. len s;
}

abbrev outside : Candidate
outside = record { kind = "reflexive"; proto = "udp"; addr = "8.8.8.8:9"; priority = pos 100 }

abbrev inside : Candidate
inside = record { kind = "local"; proto = "udp"; addr = "10.0.0.1:9"; priority = pos 60 }

abbrev peer_with : List Candidate → SelfInfo
peer_with cs = record {
  public_addr = "";
  local_addr = "10.0.0.1:9";
  candidates = cs;
  features = "ice-v1" ∷ [];
}

abbrev peer : SelfInfo
peer = peer_with (inside ∷ outside ∷ [])

abbrev reordered : SelfInfo
reordered = peer_with (outside ∷ inside ∷ [])

select_peer_candidates-IsDialable_example : IsDialable ⦃T = texts⦄ peer (outside ∷ []) none
unfolding select_peer_candidates validate_peer_candidate_metadata check_candidates
    safe_candidate_text collect normalized_peer_candidate target_of accept_target
    is_usable_external_ipv4 with_legacy add_direct allowed_relays sorted place
select_peer_candidates-IsDialable_example =
    select_peer_candidates-IsDialable ⦃T = texts⦄ peer peer (outside ∷ []) none refl

abbrev zeros : ℕ → List ℕ
zeros zero = []
zeros (suc n) = 0 ∷ zeros n

zeros_small : (n : ℕ) → All (λ b. b < 256) (zeros n)
zeros_small zero = tt
zeros_small (suc n) = (omega arith, zeros_small n)

unfoldable constant : List ℕ → List ℕ
constant bytes = zeros 32

abbrev primitives : Primitives
primitives = record {
  sha256 = constant;
  sha256_size = λ bytes. unfold constant in refl;
  sha256_bytes = λ bytes. unfold constant in zeros_small 32;
  hmac = λ key bytes. constant bytes;
  hmac_size = λ key bytes. unfold constant in refl;
  hmac_bytes = λ key bytes. unfold constant in zeros_small 32;
  format_int = λ n. n ∷ [];
  marshal = λ info. codes info.local_addr;
  decode = λ raw. none;
}

same : SameMetadata peer reordered
same = record {
  public_addr = refl;
  local_addr = refl;
  candidates = Permᴰ.swap refl refl;
  features = Permᴰ.refl ("ice-v1" ∷ []);
}

abbrev digest : List ℕ
digest = hex_encode (zeros 32)

digest_of_peer : self_snapshot_digest ⦃T = texts⦄ ⦃P = primitives⦄ peer ≡ ok digest
unfolding self_snapshot_digest validate_peer_candidate_metadata check_candidates safe_candidate_text
    constant
digest_of_peer = refl

self_snapshot_digest-SameMetadata_example :
    self_snapshot_digest ⦃T = texts⦄ ⦃P = primitives⦄ reordered ≡ ok digest
self_snapshot_digest-SameMetadata_example =
    self_snapshot_digest-SameMetadata ⦃T = texts⦄ ⦃P = primitives⦄ peer reordered digest same
      digest_of_peer

abbrev message : SelfSnapshotAuthMessage
message = record { role = "send"; digest = digest; mac = digest }

verify-new_self_snapshot_auth_message_example :
    verify_self_snapshot_auth_message ⦃T = texts⦄ ⦃P = primitives⦄ message
      (codes "234-567")
      "send"
      (1 ∷ [])
      reordered
    ≡ ok tt
unfolding new_self_snapshot_auth_message self_snapshot_digest validate_peer_candidate_metadata
    check_candidates safe_candidate_text self_snapshot_mac constant
verify-new_self_snapshot_auth_message_example =
    verify-new_self_snapshot_auth_message ⦃T = texts⦄ ⦃P = primitives⦄ (codes "234-567") "send"
      (1 ∷ []) peer reordered message same refl

verify_self_snapshot_auth_message_iff_example :
    (verify_self_snapshot_auth_message ⦃T = texts⦄ ⦃P = primitives⦄ message
        (codes "234-567")
        "send"
        (1 ∷ [])
        peer
      ≡ ok tt)
    ↔ Proves ⦃T = texts⦄ ⦃P = primitives⦄ message (codes "234-567") "send" (1 ∷ []) peer
verify_self_snapshot_auth_message_iff_example =
    verify_self_snapshot_auth_message_iff ⦃T = texts⦄ ⦃P = primitives⦄ message (codes "234-567")
      "send" (1 ∷ []) peer

normalize_code-IsCanonical_example : IsCanonical (codes "234-abc")
unfolding normalize_code normal_symbols normal_symbol is_code_symbol take drop
normalize_code-IsCanonical_example =
    normalize_code-IsCanonical (λ code. code) (codes "234-ABC") (codes "234-abc") refl

generate_code_from-finds_example :
    (form : List ℕ) × (generate_code_from
        (λ code. code)
        (map some (255 ∷ 1 ∷ 2 ∷ 3 ∷ 4 ∷ 5 ∷ 6 ∷ []))
      ≡ ok form)
    × IsCanonical form
generate_code_from-finds_example =
    generate_code_from-finds (λ code. code) (255 ∷ 1 ∷ 2 ∷ 3 ∷ 4 ∷ 5 ∷ 6 ∷ []) (λ form good. refl)
      (omega arith)

bytes_giving-eq_example : bytes_giving 256 b'z' ≡ 8
unfolding is_code_symbol
bytes_giving-eq_example = bytes_giving-eq b'z' refl
