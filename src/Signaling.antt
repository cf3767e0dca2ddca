-- ===== src/Signaling.antt =====
-- internal/transport/authenticated_signaling.go: the proof that a peer's metadata is what its owner
-- published. A text that is only hashed or sent is the list of its bytes; SHA-256, HMAC and JSON are
-- a parameter.
pub mod Order
pub mod Metadata
pub mod Snapshot
use wormzy.Prelude.{
  ℕ, ◌+◌, ◌<◌, String, Bool, true, false, not, ◌&&◌, ◌||◌, ◌==◌, ◌!=◌, Nat_eq, Text_eq, List_eq,
  Option, none, some, List, [], ◌∷◌, ◌++◌, length, codes, every, All, ◌≡◌, if◌then◌else◌, ltb,
}
use wormzy.Prelude.Int.{ltb_ℤ}
use wormzy.Prelude.Texts.{text_less}
use wormzy.Prelude.Sort.{sorted}
use wormzy.Prelude.Fallible.{Fallible, ok, fail, ◌>>=◌, ◌>>◌, require}
use wormzy.Role.{send, recv, opposite_role}
use wormzy.Session.{Candidate, SelfInfo}
use wormzy.Encoding.{hex_encode, hex_decode}
use wormzy.Candidates.{Texts, CandidateError, validate_peer_candidate_metadata, safe_candidate_text}

abbrev pub feature_authenticated_signaling_v1 : String
feature_authenticated_signaling_v1 = "authenticated-signaling-v1"

abbrev pub max_self_snapshot_auth_message_size : ℕ
max_self_snapshot_auth_message_size = 4096

abbrev pub max_self_feature_count : ℕ
max_self_feature_count = 16

abbrev pub max_self_feature_length : ℕ
max_self_feature_length = 64

pub record SelfSnapshotAuthMessage : Type 0 where
  pub role : String
  pub digest : List ℕ
  pub mac : List ℕ

pub data SnapshotError : Type 0 where
  metadata : CandidateError → SnapshotError
  too_many_features invalid_feature invalid_snapshot_role missing_key_material : SnapshotError
  unexpected_role invalid_digest snapshot_mismatch authentication_failed : SnapshotError
  invalid_size invalid_json : SnapshotError

-- `marshal` is the JSON of canonicalSelfInfo, which has the fields of SelfInfo; `decode` the strict
-- decoder with its test for trailing data.
pub record Primitives : Type 0 where
  pub sha256 : List ℕ → List ℕ
  pub sha256_size : (bytes : List ℕ) → length (sha256 bytes) ≡ 32
  pub sha256_bytes : (bytes : List ℕ) → All (λ b. b < 256) (sha256 bytes)
  pub hmac : List ℕ → List ℕ → List ℕ
  pub hmac_size : (key message : List ℕ) → length (hmac key message) ≡ 32
  pub hmac_bytes : (key message : List ℕ) → All (λ b. b < 256) (hmac key message)
  pub format_int : ℕ → List ℕ
  pub marshal : SelfInfo → List ℕ
  pub decode : List ℕ → Option SelfSnapshotAuthMessage

-- The test of sort.Slice on candidates.
unfoldable pub candidate_less : Candidate → Candidate → Bool
candidate_less left right =
    if left.kind != right.kind
    then text_less left.kind right.kind
    else if left.proto != right.proto
    then text_less left.proto right.proto
    else if left.addr != right.addr
    then text_less left.addr right.addr
    else ltb_ℤ left.priority right.priority

-- The features and the candidates in their canonical order.
unfoldable pub canonical : SelfInfo → SelfInfo
canonical info = record info {
  candidates = sorted candidate_less info.candidates;
  features = sorted text_less info.features;
}

abbrev of_metadata : Fallible CandidateError (Unit {0}) → Fallible SnapshotError (Unit {0})
of_metadata (ok _) = ok tt
of_metadata (fail e) = fail (metadata e)

abbrev pub is_send_or_recv : String → Bool
is_send_or_recv role = role == send || role == recv

-- A decoded digest or MAC that is the expected one.
abbrev pub is_raw : Option (List ℕ) → List ℕ → Bool
is_raw none want = false
is_raw (some got) want = length got == 32 && got == want

abbrev pub has_size : Option (List ℕ) → Bool
has_size none = false
has_size (some got) = length got == 32

module _ ⦃T : Texts⦄ where
  abbrev pub valid_feature : String → Bool
  valid_feature feature =
      not (T.byte_length feature == 0 || ltb max_self_feature_length (T.byte_length feature))
      && safe_candidate_text feature

module _ ⦃T : Texts⦄ ⦃P : Primitives⦄ where
  -- The digest's bytes, and their text.
  abbrev pub raw_digest : SelfInfo → List ℕ
  raw_digest info = P.sha256 (P.marshal (canonical info))

  unfoldable pub self_snapshot_digest : SelfInfo → Fallible SnapshotError (List ℕ)
  self_snapshot_digest info = do
    of_metadata (validate_peer_candidate_metadata info)
    require (not (ltb max_self_feature_count (length info.features))) too_many_features
    require (every valid_feature info.features) invalid_feature
    ok (hex_encode (raw_digest info))

  unfoldable pub field : List ℕ → List ℕ
  field bytes = P.format_int (length bytes) ++ b':' ∷ bytes

  -- What the MAC covers: the label, the code, the role and the digest's text.
  unfoldable pub mac_input : List ℕ → String → List ℕ → List ℕ
  mac_input code role digest =
      field (codes "wormzy-self-snapshot-auth-v1")
      ++ (field code ++ (field (codes role) ++ field digest))

  abbrev pub raw_mac : List ℕ → String → List ℕ → List ℕ → List ℕ
  raw_mac code role digest psk = P.hmac psk (mac_input code role digest)

  unfoldable pub self_snapshot_mac : List ℕ → String → List ℕ → List ℕ → List ℕ
  self_snapshot_mac code role digest psk = hex_encode (raw_mac code role digest psk)

  unfoldable pub new_self_snapshot_auth_message :
      List ℕ → String → List ℕ → SelfInfo → Fallible SnapshotError SelfSnapshotAuthMessage
  new_self_snapshot_auth_message code role psk info = do
    require (is_send_or_recv role) invalid_snapshot_role
    require (not (length code == 0 || length psk == 0)) missing_key_material
    digest ← self_snapshot_digest info
    ok (record { role = role; digest = digest; mac = self_snapshot_mac code role digest psk })

  abbrev decoded_raw : List ℕ → List ℕ
  decoded_raw text = elim (hex_decode text) [ none ↦ [] | some raw ↦ raw ]

  unfoldable pub verify_self_snapshot_auth_message :
      SelfSnapshotAuthMessage
      → List ℕ
      → String
      → List ℕ
      → SelfInfo
      → Fallible SnapshotError (Unit {0})
  verify_self_snapshot_auth_message message code expected_role psk info = do
    require (message.role == expected_role) unexpected_role
    want ← self_snapshot_digest info
    require (has_size (hex_decode message.digest)) invalid_digest
    require (is_raw (hex_decode message.digest) (decoded_raw want)) snapshot_mismatch
    require
        (is_raw (hex_decode message.mac)
          (decoded_raw (self_snapshot_mac code message.role message.digest psk)))
        authentication_failed
    ok tt

  unfoldable pub decode_self_snapshot_auth_message :
      List ℕ → Fallible SnapshotError SelfSnapshotAuthMessage
  decode_self_snapshot_auth_message raw =
      require (not (length raw == 0 || ltb max_self_snapshot_auth_message_size (length raw)))
        invalid_size
      >> elim (P.decode raw) [ none ↦ fail invalid_json | some message ↦ ok message ]
