-- ===== src/Transfer/Chunks.antt =====
-- internal/transport/transport.go: the loop of receiveFile takes from the stream what the loop of
-- sendFileEncrypted puts on it.
use wormzy.Prelude.{
  ℕ, ◌+◌, ◌%◌, ◌^◌, ◌<◌, ◌≤◌, zero, suc, true, false, not, Nat_eq, List, [], ◌∷◌, ◌++◌, length,
  length-append, ◌≡◌, refl, sym, ap, ◌∙◌, arith,
}
use mathlib.Core.List.{append_assoc, append-nil}
use wormzy.Prelude.Fallible.{Fallible, ok, ◌>>=◌, >>=-eq-ok, ◌>>◌, require-eq-ok}
use wormzy.Transfer.{TransferError, canceled, Primitives, max_aead_plaintext_size}
use wormzy.Transfer.Frames.{
  AeadWriter, AeadReader, frame, read_chunk, read_chunk-frame, write_chunk-eq-ok,
}
use wormzy.Transfer.Nonce.{make_nonce}
use wormzy.Transfer.Send.{ending, Reads, more, last, contents, send_bytes, send_chunks}
use wormzy.Transfer.Receive.{ReceiveCalls, receive_chunks}

module _ ⦃P : Primitives⦄ where
  -- The writer after a chunk, and the bytes that the chunk adds to the stream.
  abbrev pub after : AeadWriter → List ℕ → AeadWriter
  after w p = record w {
    sent = w.sent ++ frame w.key w.base_nonce w.ctr p;
    ctr = (w.ctr + 1) % 2 ^ 64;
  }

  abbrev after_bytes : AeadWriter → List ℕ → AeadWriter
  after_bytes w [] = w
  after_bytes w (b ∷ bytes) = after w (b ∷ bytes)

  abbrev bytes_frame : AeadWriter → List ℕ → List ℕ
  bytes_frame w [] = []
  bytes_frame w (b ∷ bytes) = frame w.key w.base_nonce w.ctr (b ∷ bytes)

  unfoldable pub final : Reads → AeadWriter → AeadWriter
  final (more stop bytes rest) w = final rest (after_bytes w bytes)
  final (last stop bytes end) w = after_bytes w bytes

  unfoldable pub tail_of : Reads → AeadWriter → List ℕ
  tail_of (more stop bytes rest) w = bytes_frame w bytes ++ tail_of rest (after_bytes w bytes)
  tail_of (last stop bytes end) w = bytes_frame w bytes

  abbrev pub AreSmall : Reads → Type 0
  AreSmall (more stop bytes rest) = (length bytes ≤ max_aead_plaintext_size) × AreSmall rest
  AreSmall (last stop bytes end) = length bytes ≤ max_aead_plaintext_size

  send_bytes-eq-ok :
      (w v : AeadWriter) (bytes : List ℕ)
      → send_bytes w bytes ≡ ok v
      → (length bytes ≤ max_aead_plaintext_size) × (v ≡ after_bytes w bytes)
  unfolding send_bytes
  send_bytes-eq-ok w v [] h = (omega arith, ground arith)
  send_bytes-eq-ok w v (b ∷ bytes) h = write_chunk-eq-ok w v (b ∷ bytes) h

  pub send_chunks-eq-ok :
      (reads : Reads) (w v : AeadWriter) (hashed all : List ℕ)
      → send_chunks reads w hashed ≡ ok (v, all)
      → AreSmall reads × ((v ≡ final reads w) × (all ≡ hashed ++ contents reads))
  unfolding send_chunks final contents
  send_chunks-eq-ok (more stop bytes rest) w v hashed all h =
      let next : AeadWriter → Fallible TransferError (AeadWriter × List ℕ) =
        λ u. send_chunks rest u (hashed ++ bytes) in
      let (_, h1) = require-eq-ok (not stop) canceled (send_bytes w bytes >>= next) h in
      let (u, made, h2) = >>=-eq-ok (send_bytes w bytes) next h1 in
      let (small, is) = send_bytes-eq-ok w u bytes made in
      let (smalls, (v_is, all_is)) = send_chunks-eq-ok rest u v (hashed ++ bytes) all h2 in
      (
        (small, smalls),
        (v_is ∙ ap (final rest) is, all_is ∙ append_assoc hashed bytes (contents rest)),
      )
  send_chunks-eq-ok (last stop bytes end) w v hashed all h =
      let next : AeadWriter → Fallible TransferError (AeadWriter × List ℕ) =
        λ u. ending end >> ok (u, hashed ++ bytes) in
      let (_, h1) = require-eq-ok (not stop) canceled (send_bytes w bytes >>= next) h in
      let (u, made, h2) = >>=-eq-ok (send_bytes w bytes) next h1 in
      let (small, is) = send_bytes-eq-ok w u bytes made in
      let (_, _, h3) = >>=-eq-ok (ending end) (λ _. ok (u, hashed ++ bytes)) h2 in
      (small, (ground (arith, h3) ∙ is, ground (arith, h3)))

  pub final-sent :
      (reads : Reads) (w : AeadWriter) → (final reads w).sent ≡ w.sent ++ tail_of reads w
  unfolding final tail_of
  final-sent (more stop [] rest) w = final-sent rest w
  final-sent (more stop (b ∷ bytes) rest) w =
      final-sent rest (after w (b ∷ bytes))
      ∙ append_assoc w.sent (frame w.key w.base_nonce w.ctr (b ∷ bytes))
          (tail_of rest (after w (b ∷ bytes)))
  final-sent (last stop [] end) w = sym (append-nil w.sent)
  final-sent (last stop (b ∷ bytes) end) w = refl

  -- The reader that has read what the writer wrote, with these bytes before it.
  abbrev pub reader_at : AeadWriter → List ℕ → AeadReader
  reader_at w pending = record {
    key = w.key;
    base_nonce = w.base_nonce;
    ctr = w.ctr;
    input = record { pending = pending; cut = false };
  }

  pub read_chunk-after :
      (w : AeadWriter) (p rest : List ℕ)
      → length p ≤ max_aead_plaintext_size
      → read_chunk (reader_at w (frame w.key w.base_nonce w.ctr p ++ rest))
        ≡ ok (p, reader_at (after w p) rest)
  read_chunk-after w p rest small =
      read_chunk-frame (reader_at w (frame w.key w.base_nonce w.ctr p ++ rest)) p rest small refl

  -- A receiver that is not canceled and whose file takes every write.
  pub record Runs (c : ReceiveCalls) : Type 0 where
    pub context_done : (n : ℕ) → c.context_done n ≡ false
    pub writes : (n : ℕ) → c.writes n ≡ true

  -- One turn of the loop, on a chunk that fits.
  receive_chunks-chunk :
      (c : ReceiveCalls) (fuel size b : ℕ) (bytes written : List ℕ) (r next : AeadReader)
      → Runs c
      → read_chunk r ≡ ok (b ∷ bytes, next)
      → length written + length (b ∷ bytes) ≤ size
      → receive_chunks (suc fuel) c size r written
        ≡ receive_chunks fuel c size next (written ++ b ∷ bytes)
  unfolding receive_chunks
  receive_chunks-chunk c fuel size b bytes written r next runs got fits =
      ground (arith, got, runs.context_done (length written), runs.writes (length written))

  -- With all in the file, the loop ends.
  receive_chunks-full :
      (c : ReceiveCalls) (fuel : ℕ) (written : List ℕ) (r : AeadReader)
      → receive_chunks (suc fuel) c (length written) r written ≡ ok (written, r)
  unfolding receive_chunks
  receive_chunks-full c fuel written r = ground arith

  frame_nonempty :
      (w : AeadWriter) (p others : List ℕ)
      → length others < length (frame w.key w.base_nonce w.ctr p ++ others)
  unfolding frame
  frame_nonempty w p others =
      omega (arith, length-append (P.seal w.key (make_nonce w.base_nonce w.ctr) p) others)

  pub receive_chunks-tail_of :
      (c : ReceiveCalls) (reads : Reads) (w : AeadWriter) (fuel : ℕ) (written rest : List ℕ)
      → Runs c
      → AreSmall reads
      → length (tail_of reads w) < fuel
      → receive_chunks fuel c
          (length (written ++ contents reads))
          (reader_at w (tail_of reads w ++ rest))
          written
        ≡ ok (written ++ contents reads, reader_at (final reads w) rest)
  unfolding tail_of contents final
  receive_chunks-tail_of c reads w zero written rest runs small h = absurd (omega (arith, h))
  receive_chunks-tail_of c (more stop [] later) w (suc fuel) written rest runs small h =
      receive_chunks-tail_of c later w (suc fuel) written rest runs small.1 h
  receive_chunks-tail_of c (last stop [] end) w (suc fuel) written rest runs small h =
      rw (append-nil written) (receive_chunks-full c fuel written (reader_at w rest))
  receive_chunks-tail_of c (more stop (b ∷ bytes) later) w (suc fuel) written rest runs small h =
      let p = b ∷ bytes in
      let first = frame w.key w.base_nonce w.ctr p in
      let others = tail_of later (after w p) in
      let all = append_assoc written p (contents later) in
      let shorter = frame_nonempty w p others in
      let fits = length-append (written ++ p) (contents later) in
      let one = length-append written p in
      rw (append_assoc first others rest, ← all)
        (receive_chunks-chunk c fuel (length (written ++ p ++ contents later)) b bytes written
            (reader_at w (first ++ (others ++ rest))) (reader_at (after w p) (others ++ rest)) runs
            (read_chunk-after w p (others ++ rest) small.0) (omega (arith, fits, one))
          ∙ receive_chunks-tail_of c later (after w p) fuel (written ++ p) rest runs small.1
              (omega (arith, h, shorter)))
  receive_chunks-tail_of c (last stop (b ∷ bytes) end) w (suc zero) written rest runs small h =
      absurd (
        omega (
          arith,
          h,
          frame_nonempty w (b ∷ bytes) [],
          length-append (frame w.key w.base_nonce w.ctr (b ∷ bytes)) [],
        ))
  receive_chunks-tail_of c (last stop (b ∷ bytes) end) w (suc (suc fuel)) written rest runs small
        h =
      let p = b ∷ bytes in
      let first = frame w.key w.base_nonce w.ctr p in
      let one = length-append written p in
      receive_chunks-chunk c (suc fuel) (length (written ++ p)) b bytes written
        (reader_at w (first ++ rest)) (reader_at (after w p) rest) runs
        (read_chunk-after w p rest small) (omega (arith, one))
      ∙ receive_chunks-full c fuel (written ++ p) (reader_at (after w p) rest)
