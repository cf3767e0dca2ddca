-- ===== src/Transfer/RoundTrip.antt =====
-- internal/transport/transport.go: what sendFileEncrypted sends, receiveFile saves.
use wormzy.Prelude.{
  ℕ, ◌+◌, ◌*◌, ◌/◌, ◌%◌, ◌^◌, ◌<◌, ◌≤◌, suc, true, false, Nat_eq, some, List, [], ◌++◌, length,
  length-append, take, drop, take-length, ◌≡◌, refl, sym, ap, ◌∙◌, arith, list_eq_iff, List_eq,
}
use wormzy.Prelude.Int.{pos}
use mathlib.Core.List.{append_assoc, append-nil}
use wormzy.Prelude.Fallible.{ok, fail}
use wormzy.Transfer.{
  Primitives, max_aead_plaintext_size, max_uint16_payload_len, meta_prefix, chunk_size, eof,
}
use wormzy.Transfer.Frames.{read_chunk-end, AeadWriter, frame, read_chunk, read_full}
use wormzy.Transfer.Send.{
  SendCalls, Sent, Reads, contents, le_bytes, file_header, send_file_encrypted, metadata,
}
use wormzy.Transfer.Receive.{
  ReceiveCalls, receive_chunks, le_value, parse_header, verify_metadata, check_metadata,
  receive_body, open_transfer, receive_file, finish_download, default_name, clamp_int64,
}
use wormzy.Completion.{take_full}
use wormzy.Completion.Frames.{take_full-append}
use wormzy.Transfer.Files.{
  Reserved, put, sanitize_filename, create_download_file, ensure_free_space,
}
use wormzy.Transfer.Chunks.{
  after, final, tail_of, AreSmall, reader_at, read_chunk-after, Runs, receive_chunks-tail_of,
  final-sent,
}
use wormzy.Transfer.SentStream.{
  first, second, third, trailer_of, send_file_encrypted-eq-ok, send_stream-eq-ok,
}

parse_header-file_header :
    (name : List ℕ) (size : ℕ)
    → length name ≤ max_uint16_payload_len
    → size < 2 ^ 63
    → parse_header (file_header name size) ≡ ok (name, size)
unfolding parse_header file_header le_bytes le_value take drop
parse_header-file_header name size short small =
    let name_len : length name % 256 + 256 * (length name / 256 % 256 + 256 * 0) ≡ length name =
      omega arith in
    ground (arith, name_len, take-length name)

file_header_small :
    (name : List ℕ) (size : ℕ)
    → length name ≤ max_uint16_payload_len
    → length (file_header name size) ≤ max_aead_plaintext_size
unfolding file_header le_bytes
file_header_small name size short = omega arith

module _ ⦃P : Primitives⦄ where
  -- The trailer that the sender makes passes the receiver's checks, at the end of the stream.
  verify_metadata-trailer :
      (w : AeadWriter) (all : List ℕ)
      → length (trailer_of all (length all)) ≤ max_aead_plaintext_size
      → P.decode (P.marshal (metadata all (length all))) ≡ some (metadata all (length all))
      → verify_metadata
          (reader_at w (frame w.key w.base_nonce w.ctr (trailer_of all (length all))))
          (P.hash all)
          (length all)
          chunk_size
        ≡ ok tt
  unfolding verify_metadata check_metadata take drop
  verify_metadata-trailer w all fits decodes =
      let trailer = trailer_of all (length all) in
      let bytes = frame w.key w.base_nonce w.ctr trailer in
      let got : read_chunk (reader_at w bytes) ≡ ok (trailer, reader_at (after w trailer) []) =
        ap (λ rest. read_chunk (reader_at w rest)) (sym (append-nil bytes))
        ∙ read_chunk-after w trailer [] fits in
      let end : read_chunk (reader_at (after w trailer) []) ≡ fail eof =
        read_chunk-end (reader_at (after w trailer) []) refl in
      ground (
        arith,
        got,
        end,
        decodes,
        P.hash_size all,
        list_eq_iff (P.hash all) (P.hash all),
        list_eq_iff meta_prefix meta_prefix,
      )

  receive_body-sent :
      (c : ReceiveCalls) (reads : Reads) (w : AeadWriter)
      → Runs c
      → c.closes ≡ true
      → AreSmall reads
      → let all = contents reads in
        let end = final reads w in
        length (trailer_of all (length all)) ≤ max_aead_plaintext_size
        → P.decode (P.marshal (metadata all (length all))) ≡ some (metadata all (length all))
        → receive_body c (length all) (
            reader_at w (
              tail_of reads w
              ++ frame end.key end.base_nonce end.ctr (trailer_of all (length all))))
          ≡ ok (all, P.hash all)
  unfolding receive_body
  receive_body-sent c reads w runs closes small fits decodes =
      let all = contents reads in
      let end = final reads w in
      let last_frame = frame end.key end.base_nonce end.ctr (trailer_of all (length all)) in
      let whole = tail_of reads w ++ last_frame in
      let fuel = suc (length whole) in
      let chunks : receive_chunks fuel c (length all) (reader_at w whole) []
          ≡ ok (all, reader_at end last_frame) =
        receive_chunks-tail_of c reads w fuel [] last_frame runs small
          (omega (arith, length-append (tail_of reads w) last_frame)) in
      ground (arith, chunks, verify_metadata-trailer end all fits decodes, closes)

  -- The stream of a sender, split where the receiver splits it.
  open_transfer-sent :
      (key base : List ℕ) (s : SendCalls) (c : ReceiveCalls) (size : ℕ) (rest : List ℕ)
      → length base ≡ 24
      → length key ≡ 32
      → length s.name ≤ max_uint16_payload_len
      → size < 2 ^ 63
      → c.stream
        ≡ some (record {
          pending = base ++ (frame key base 0 (file_header s.name size) ++ rest);
          cut = false;
        })
      → open_transfer key c ≡ ok (s.name, (size, reader_at (second key base s size) rest))
  unfolding open_transfer read_full
  open_transfer-sent key base s c size rest b k short small has =
      let header = file_header s.name size in
      let bytes = frame key base 0 header ++ rest in
      let split : take_full 24 (base ++ bytes) ≡ some (base, bytes) =
        ap (λ n. take_full n (base ++ bytes)) (sym b) ∙ take_full-append base bytes in
      let got =
        read_chunk-after (first key base s) header rest (file_header_small s.name size short) in
      ground (arith, has, split, k, got, parse_header-file_header s.name size short small)

  -- If a sender succeeds on a file that keeps its size, and a receiver with the same key gets the
  -- whole stream, is not canceled, has the space, can create a file under the cleaned name and can
  -- write and close it, and JSON carries the metadata, then the receiver succeeds: the file that it
  -- has created holds exactly the bytes that were read from the sender's file, and the size and the
  -- digest are the sender's.
  pub receive_file-send_file_encrypted :
      (key base : List ℕ) (s : SendCalls) (sent : Sent) (c : ReceiveCalls) (out : Reserved)
      → let all = contents s.reads in
        send_file_encrypted key s ≡ ok sent
        → s.size ≡ pos (length all)
        → length all < 2 ^ 63
        → s.random ≡ some base
        → length base ≡ 24
        → P.decode (P.marshal (metadata all (length all))) ≡ some (metadata all (length all))
        → c.stream ≡ some (record { pending = sent.stream; cut = false })
        → Runs c
        → c.closes ≡ true
        → ensure_free_space c.dir (length all) ≡ ok tt
        → create_download_file c.dir (default_name (sanitize_filename s.name)) c.random ≡ ok out
        → receive_file key c ≡ (
          put out.name (some all) out.dir,
          ok (record { path = out.name; digest = sent.digest; size = length all }),
        )
  unfolding receive_file finish_download clamp_int64
  receive_file-send_file_encrypted key base s sent c out sends sized small drew full decodes has
        runs closes room made =
      let all = contents s.reads in
      let size = length all in
      let (k, (short, streamed)) =
        send_file_encrypted-eq-ok key s sent size base sends sized drew in
      let (chunks_small, (fits, is)) = send_stream-eq-ok key base s size sent streamed in
      let w1 = second key base s size in
      let w2 = third key base s size in
      let header_frame = frame key base 0 (file_header s.name size) in
      let trailer_frame = frame w2.key w2.base_nonce w2.ctr (trailer_of all size) in
      let rest = tail_of s.reads w1 ++ trailer_frame in
      let shape : sent.stream ≡ base ++ (header_frame ++ rest) =
        ap (λ (x : Sent). x.stream) is
        ∙ ap (λ front. front ++ trailer_frame) (final-sent s.reads w1)
        ∙ append_assoc w1.sent (tail_of s.reads w1) trailer_frame
        ∙ append_assoc base header_frame rest in
      let begins =
        open_transfer-sent key base s c size rest full k short small
          (has ∙ ap (λ p. some (record { pending = p; cut = false })) shape) in
      let body = receive_body-sent c s.reads w1 runs closes chunks_small fits decodes in
      ground (arith, begins, room, made, body, ap (λ (x : Sent). x.digest) is)
