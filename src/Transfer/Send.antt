-- ===== src/Transfer/Send.antt =====
-- internal/transport/transport.go, sendFileEncrypted: the sender's side of a file stream. Progress
-- reports and deadlines are left out; a deadline that passes is a write that is not accepted.
use wormzy.Prelude.{
  ℕ, ◌/◌, ◌%◌, zero, suc, Bool, not, ◌==◌, Nat_eq, Option, none, some, List, [], ◌∷◌, ◌++◌, length,
  ltb,
}
use wormzy.Prelude.Int.{ℤ, pos, negsuc}
use wormzy.Prelude.Fallible.{Fallible, ok, fail, ◌>>=◌, ◌>>◌, require}
use wormzy.Transfer.{
  TransferError, canceled, stat_failed, is_directory, filename_too_long, negative_size, cannot_open,
  no_stream, invalid_key, no_random, read_failed, Primitives, FileMetadata, file_hash_algorithm,
  chunk_size, max_uint16_payload_len, meta_prefix,
}
use wormzy.Transfer.Frames.{AeadWriter, write, write_chunk}

-- What the calls of file.Read answer, one after the other: bytes with a nil error, or bytes with the
-- error that ends the loop, `none` for io.EOF and `some tt` for another. The test says whether the
-- context is done before the call.
pub data Reads : Type 0 where
  more : Bool → List ℕ → Reads → Reads
  last : Bool → List ℕ → Option (Unit {0}) → Reads

-- The bytes that the reads deliver.
unfoldable pub contents : Reads → List ℕ
contents (more stop bytes rest) = bytes ++ contents rest
contents (last stop bytes end) = bytes

-- What the file system and the network answer to a sender. `name` is filepath.Base(path).
pub record SendCalls : Type 0 where
  pub stat : Bool
  pub is_dir : Bool
  pub name : List ℕ
  pub size : ℤ
  pub opens : Bool
  pub reads : Reads
  pub stream : Bool
  pub accepts : ℕ → Bool
  pub random : Option (List ℕ)

pub record Sent : Type 0 where
  pub digest : List ℕ
  pub size : ℕ
  pub stream : List ℕ

-- binary.LittleEndian
unfoldable pub le_bytes : ℕ → ℕ → List ℕ
le_bytes zero n = []
le_bytes (suc k) n = n % 256 ∷ le_bytes k (n / 256)

unfoldable pub file_header : List ℕ → ℕ → List ℕ
file_header name size = le_bytes 2 (length name) ++ (le_bytes 8 size ++ name)

abbrev pub ending : Option (Unit {0}) → Fallible TransferError (Unit {0})
ending none = ok tt
ending (some _) = fail read_failed

abbrev natural : ℤ → Fallible TransferError ℕ
natural (pos n) = ok n
natural (negsuc n) = fail negative_size

abbrev drawn : Option (List ℕ) → Fallible TransferError (List ℕ)
drawn none = fail no_random
drawn (some bytes) = ok bytes

abbrev opened : SendCalls → Fallible TransferError (Unit {0})
opened c = require c.opens cannot_open >> require c.stream no_stream

module _ ⦃P : Primitives⦄ where
  -- A read that delivers no bytes writes nothing.
  unfoldable pub send_bytes : AeadWriter → List ℕ → Fallible TransferError AeadWriter
  send_bytes w [] = ok w
  send_bytes w (b ∷ bytes) = write_chunk w (b ∷ bytes)

  -- The loop, with what the hasher was given.
  unfoldable pub send_chunks :
      Reads → AeadWriter → List ℕ → Fallible TransferError (AeadWriter × List ℕ)
  send_chunks (more stop bytes rest) w hashed =
      require (not stop) canceled
      >> (send_bytes w bytes >>= λ v. send_chunks rest v (hashed ++ bytes))
  send_chunks (last stop bytes end) w hashed =
      require (not stop) canceled
      >> (send_bytes w bytes >>= λ v. ending end >> ok (v, hashed ++ bytes))

  abbrev pub metadata : List ℕ → ℕ → FileMetadata
  metadata bytes size = record {
    hash = file_hash_algorithm;
    chunk_size = chunk_size;
    size = size;
    digest = P.hash bytes;
  }

  abbrev pub new_writer : List ℕ → List ℕ → SendCalls → AeadWriter
  new_writer key base c = record {
    key = key;
    base_nonce = base;
    ctr = 0;
    sent = [];
    accepts = c.accepts;
  }

  -- The metadata trailer, and the result.
  unfoldable pub send_trailer : ℕ → AeadWriter × List ℕ → Fallible TransferError Sent
  send_trailer size (w, hashed) =
      let meta = metadata hashed size in
      write_chunk w (meta_prefix ++ P.marshal meta) >>= λ v.
      ok (record { digest = meta.digest; size = size; stream = v.sent })

  -- After the checks: the base nonce, the header, the chunks and the trailer.
  unfoldable pub send_stream : List ℕ → SendCalls → ℕ → List ℕ → Fallible TransferError Sent
  send_stream key c size base = write (new_writer key base c) base >>= λ w0.
      write_chunk w0 (file_header c.name size) >>= λ w1.
      send_chunks c.reads w1 [] >>= send_trailer size

  unfoldable pub send_file_encrypted : List ℕ → SendCalls → Fallible TransferError Sent
  send_file_encrypted key c = do
    require c.stat stat_failed
    require (not c.is_dir) is_directory
    require (not (ltb max_uint16_payload_len (length c.name))) filename_too_long
    size ← natural c.size
    opened c
    require (length key == 32) invalid_key
    base ← drawn c.random
    send_stream key c size base
