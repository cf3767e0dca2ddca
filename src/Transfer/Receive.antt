-- ===== src/Transfer/Receive.antt =====
-- internal/transport/transport.go, receiveFile and verifyMetadata: the receiver's side of a file
-- stream. Progress reports and deadlines are left out; a deadline that passes is a stream that is cut.
use wormzy.Prelude.{
  ℕ, ◌+◌, ◌*◌, ◌-◌, ◌^◌, zero, suc, Bool, false, true, not, ◌||◌, ◌==◌, ◌!=◌, Nat_eq, Text_eq,
  List_eq, Option, none, some, List, [], ◌∷◌, ◌++◌, length, take, drop, codes, if◌then◌else◌, ltb,
}
use wormzy.Prelude.Fallible.{Fallible, ok, fail, ◌>>=◌, ◌>>◌, require}
use wormzy.Transfer.{
  TransferError, eof, canceled, no_stream, invalid_key, invalid_header, header_truncated,
  empty_chunk, data_exceeds_size, size_not_reached, write_failed, close_failed, missing_metadata,
  unexpected_trailer, invalid_json, unsupported_hash, chunk_size_mismatch, file_size_mismatch,
  invalid_digest_length, hash_mismatch, chunk_after_metadata, out_of_fuel, Primitives, FileMetadata,
  file_header_fixed_len, file_header_name_len_size, file_hash_algorithm, file_digest_size,
  chunk_size, meta_prefix,
}
use wormzy.Transfer.Frames.{Stream, AeadReader, read_full, read_chunk}
use wormzy.Transfer.Files.{
  Directory, Reserved, put, sanitize_filename, create_download_file, ensure_free_space,
}

-- What the network and the file system answer to a receiver. The tests say, for a number of bytes
-- written, whether the context is done and whether the next write to the file succeeds. What remains
-- is what a receiver that gives up finds at the reserved name once it has closed and removed the
-- file, whose errors it drops: nothing if os.Remove succeeds, and otherwise what the file holds then.
pub record ReceiveCalls : Type 0 where
  pub stream : Option Stream
  pub context_done : ℕ → Bool
  pub dir : Directory
  pub random : ℕ → Option (List ℕ)
  pub writes : ℕ → Bool
  pub closes : Bool
  pub remains : Option (List ℕ)

pub record Received : Type 0 where
  pub path : List ℕ
  pub digest : List ℕ
  pub size : ℕ

abbrev pub max_int64 : ℕ
max_int64 = 2 ^ 63 - 1

unfoldable pub clamp_int64 : ℕ → ℕ
clamp_int64 v = if ltb max_int64 v then max_int64 else v

-- binary.LittleEndian
unfoldable pub le_value : List ℕ → ℕ
le_value [] = 0
le_value (b ∷ bs) = b + 256 * le_value bs

-- What a frame's plaintext says of the file: its name's bytes and its size.
unfoldable pub parse_header : List ℕ → Fallible TransferError (List ℕ × ℕ)
parse_header hdr = do
  require (not (ltb (length hdr) file_header_fixed_len)) invalid_header
  let name_len = le_value (take file_header_name_len_size hdr)
  require (not (ltb (length hdr) (file_header_fixed_len + name_len))) header_truncated
  let size = le_value (take 8 (drop file_header_name_len_size hdr))
  ok (take name_len (drop file_header_fixed_len hdr), size)

abbrev pub is_eof : TransferError → Bool
is_eof eof = true
is_eof _ = false

abbrev accepted : Option Stream → Fallible TransferError Stream
accepted none = fail no_stream
accepted (some s) = ok s

module _ ⦃P : Primitives⦄ where
  abbrev pub decoded : List ℕ → Fallible TransferError FileMetadata
  decoded raw = elim (P.decode raw) [ none ↦ fail invalid_json | some meta ↦ ok meta ]

  -- The first frame of the trailer's two reads.
  abbrev pub trailer :
      Fallible TransferError (List ℕ × AeadReader) → Fallible TransferError (List ℕ × AeadReader)
  trailer (ok chunk) = ok chunk
  trailer (fail e) = fail (if is_eof e then missing_metadata else e)

  -- The read that has to find the end.
  abbrev pub at_end :
      Fallible TransferError (List ℕ × AeadReader) → Fallible TransferError (Unit {0})
  at_end (ok chunk) = fail chunk_after_metadata
  at_end (fail e) = if is_eof e then ok tt else fail e

  -- The checks of the metadata, in the order of the code.
  unfoldable pub check_metadata : FileMetadata → List ℕ → ℕ → ℕ → Fallible TransferError (Unit {0})
  check_metadata meta digest expected_size expected_chunk_size = do
    require (meta.hash == file_hash_algorithm) unsupported_hash
    require (meta.chunk_size == expected_chunk_size) chunk_size_mismatch
    require (meta.size == expected_size) file_size_mismatch
    require (not (length digest != file_digest_size || length meta.digest != file_digest_size))
        invalid_digest_length
    require (digest == meta.digest) hash_mismatch
    ok tt

  unfoldable pub verify_metadata : AeadReader → List ℕ → ℕ → ℕ → Fallible TransferError (Unit {0})
  verify_metadata reader digest expected_size expected_chunk_size =
      trailer (read_chunk reader) >>= λ (chunk, next).
      (require (take (length meta_prefix) chunk == meta_prefix) unexpected_trailer
        >> (decoded (drop (length meta_prefix) chunk) >>= λ meta.
            check_metadata meta digest expected_size expected_chunk_size
            >> at_end (read_chunk next)))

  -- The loop: what the file holds, which is what the hasher was given, and the reader after it.
  unfoldable pub receive_chunks :
      ℕ → ReceiveCalls → ℕ → AeadReader → List ℕ → Fallible TransferError (List ℕ × AeadReader)
  receive_chunks zero c size reader written = fail out_of_fuel
  receive_chunks (suc fuel) c size reader written =
      if not (ltb (length written) size)
      then ok (written, reader)
      else (require (not (c.context_done (length written))) canceled >> elim (read_chunk reader) [
        | fail e ↦ if is_eof e then ok (written, reader) else fail e
        | ok (chunk, next) ↦
            require (not (length chunk == 0)) empty_chunk
            >> (require (not (ltb (size - length written) (length chunk))) data_exceeds_size
                >> (require (c.writes (length written)) write_failed
                    >> receive_chunks fuel c size next (written ++ chunk)))
      ])

  -- From the loop to the end, on a file that was reserved: its contents and their digest.
  unfoldable pub receive_body :
      ReceiveCalls → ℕ → AeadReader → Fallible TransferError (List ℕ × List ℕ)
  receive_body c size reader = do
    (written, next) ← receive_chunks (suc (length reader.input.pending)) c size reader []
    require (length written == size) size_not_reached
    let sum = P.hash written
    verify_metadata next sum size chunk_size
    require c.closes close_failed
    ok (written, sum)

  -- The stream, its base nonce, and the header.
  unfoldable pub open_transfer :
      List ℕ → ReceiveCalls → Fallible TransferError (List ℕ × (ℕ × AeadReader))
  open_transfer key c = do
    stream ← accepted c.stream
    (base, input) ← read_full 24 stream
    require (length key == 32) invalid_key
    (hdr, reader) ← read_chunk (record { key = key; base_nonce = base; ctr = 0; input = input })
    (name, size) ← parse_header hdr
    ok (name, (size, reader))

  abbrev pub default_name : List ℕ → List ℕ
  default_name name = if length name == 0 then codes "wormzy-file" else name

  -- The reserved file is kept only if all that follows succeeds. Otherwise it is closed and removed,
  -- and an error of either is dropped.
  unfoldable pub finish_download :
      ReceiveCalls
      → Reserved
      → ℕ
      → Fallible TransferError (List ℕ × List ℕ)
      → Directory × Fallible TransferError Received
  finish_download c out size (fail e) = (put out.name c.remains out.dir, fail e)
  finish_download c out size (ok (written, sum)) = (
    put out.name (some written) out.dir,
    ok (record { path = out.name; digest = sum; size = clamp_int64 size }),
  )

  -- The directory afterwards, and the result.
  unfoldable pub receive_file : List ℕ → ReceiveCalls → Directory × Fallible TransferError Received
  receive_file key c = elim (open_transfer key c) [
    | fail e ↦ (c.dir, fail e)
    | ok (raw, (size, reader)) ↦
        let name = default_name (sanitize_filename raw) in
        elim (ensure_free_space c.dir size >>= λ _. create_download_file c.dir name c.random) [
          | fail e ↦ (c.dir, fail e)
          | ok out ↦ finish_download c out size (receive_body c size reader)
        ]
  ]
