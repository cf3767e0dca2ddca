-- ===== src/Transfer.antt =====
-- internal/transport/transport.go: the encrypted file stream. Bytes are numbers, a name is the list
-- of its bytes. XChaCha20-Poly1305, BLAKE3, JSON and the Unicode tables are a parameter.
pub mod Nonce
pub mod Frames
pub mod Send
pub mod Files
pub mod Receive
pub mod Consumption
pub mod Chunks
pub mod SentStream
pub mod RoundTrip
pub mod Termination
pub mod Carriage
pub mod Integrity
pub mod Download
pub mod Confirm
pub mod Confirms
pub mod Disk
use wormzy.Prelude.{
  ℕ, ◌+◌, ◌*◌, ◌^◌, ◌-◌, ◌/◌, ◌%◌, zero, suc, String, Bool, ◌&&◌, ◌||◌, true, false, not, ◌==◌,
  Nat_eq, List_eq, Option, none, some, List, [], ◌∷◌, ◌++◌, length, codes, ◌≡◌, if◌then◌else◌, ltb,
  map, contains, ◌<◌,
}

pub data TransferError : Type 0 where
  -- io.EOF, io.ErrUnexpectedEOF and any other error of the stream
  eof unexpected_eof stream_error : TransferError
  canceled : TransferError
  plaintext_too_large invalid_frame_size open_failed : TransferError
  stat_failed is_directory filename_too_long negative_size cannot_open no_stream : TransferError
  invalid_key no_random read_failed : TransferError
  invalid_header header_truncated : TransferError
  disk_space_unknown insufficient_disk_space create_failed no_destination : TransferError
  empty_chunk data_exceeds_size size_not_reached write_failed close_failed : TransferError
  missing_metadata unexpected_trailer invalid_json unsupported_hash : TransferError
  chunk_size_mismatch file_size_mismatch invalid_digest_length hash_mismatch : TransferError
  chunk_after_metadata : TransferError
  -- no error of the program: a loop of the model that its bound has stopped
  out_of_fuel : TransferError

abbrev pub file_header_name_len_size : ℕ
file_header_name_len_size = 2

abbrev pub file_header_fixed_len : ℕ
file_header_fixed_len = 10

abbrev pub max_uint16_payload_len : ℕ
max_uint16_payload_len = 65535

abbrev pub file_digest_size : ℕ
file_digest_size = 32

-- chacha20poly1305.Overhead
abbrev pub overhead : ℕ
overhead = 16

abbrev pub max_aead_plaintext_size : ℕ
max_aead_plaintext_size = file_header_fixed_len + max_uint16_payload_len

abbrev pub max_aead_ciphertext_size : ℕ
max_aead_ciphertext_size = max_aead_plaintext_size + overhead

abbrev pub chunk_size : ℕ
chunk_size = 65536

abbrev pub file_hash_algorithm : String
file_hash_algorithm = "blake3-256"

abbrev pub meta_prefix : List ℕ
meta_prefix = codes "META:"

pub record FileMetadata : Type 0 where
  pub hash : String
  pub chunk_size : ℕ
  pub size : ℕ
  pub digest : List ℕ

-- `seal key nonce plaintext` and `unseal key nonce ciphertext` (Open), without associated data. `hash` is the
-- digest of all that the hasher was given, `ext` is filepath.Ext. `runes` is what `range` visits in a text, `utf8` the
-- bytes of runes.
pub record Primitives : Type 0 where
  pub seal : List ℕ → List ℕ → List ℕ → List ℕ
  pub unseal : List ℕ → List ℕ → List ℕ → Option (List ℕ)
  pub seal_size :
      (key nonce plain : List ℕ) → length (seal key nonce plain) ≡ length plain + overhead
  pub unseal-seal :
      (key nonce plain : List ℕ) → unseal key nonce (seal key nonce plain) ≡ some plain
  pub hash : List ℕ → List ℕ
  pub hash_size : (bytes : List ℕ) → length (hash bytes) ≡ file_digest_size
  pub marshal : FileMetadata → List ℕ
  pub decode : List ℕ → Option FileMetadata
  pub format_int : ℕ → List ℕ
  pub ext : List ℕ → List ℕ
  pub trim_suffix : List ℕ → List ℕ → List ℕ
  pub runes : List ℕ → List ℕ
  pub utf8 : List ℕ → List ℕ
  pub is_control : ℕ → Bool
  pub is_format : ℕ → Bool
  pub utf8_ascii :
      (rs : List ℕ) (b : ℕ) → b < 128 → contains (utf8 rs) b ≡ true → contains rs b ≡ true
