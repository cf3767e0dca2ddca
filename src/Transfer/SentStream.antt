-- ===== src/Transfer/SentStream.antt =====
-- internal/transport/transport.go: the stream that a successful
-- sendFileEncrypted has sent.
use wormzy.Prelude.{ℕ, ◌≤◌, Nat_eq, some, List, [], ◌++◌, length, ◌≡◌, sym, ap, ◌∙◌, subst, arith}
use wormzy.Prelude.Int.{pos}
use wormzy.Prelude.Fallible.{Fallible, ok, ◌>>=◌, >>=-eq-ok}
use wormzy.Transfer.{
  TransferError, Primitives, max_aead_plaintext_size, max_uint16_payload_len, meta_prefix,
}
use wormzy.Transfer.Frames.{AeadWriter, write_chunk, write_chunk-eq-ok, write}
use wormzy.Transfer.Send.{
  SendCalls, Sent, contents, send_chunks, file_header, send_stream, send_file_encrypted,
  send_trailer, new_writer, metadata,
}
use wormzy.Transfer.Chunks.{after, final, AreSmall, send_chunks-eq-ok}

module _ ⦃P : Primitives⦄ where
  pub send_file_encrypted-eq-ok :
      (key : List ℕ) (c : SendCalls) (s : Sent) (size : ℕ) (base : List ℕ)
      → send_file_encrypted key c ≡ ok s
      → c.size ≡ pos size
      → c.random ≡ some base
      → (length key ≡ 32)
        × ((length c.name ≤ max_uint16_payload_len) × (send_stream key c size base ≡ ok s))
  unfolding send_file_encrypted
  send_file_encrypted-eq-ok key c s size base h at drew =
      (ground (arith, h, at, drew), (ground (arith, h, at, drew), ground (arith, h, at, drew)))

  abbrev pub first : List ℕ → List ℕ → SendCalls → AeadWriter
  first key base c = record (new_writer key base c) { sent = base }

  abbrev pub second : List ℕ → List ℕ → SendCalls → ℕ → AeadWriter
  second key base c size = after (first key base c) (file_header c.name size)

  abbrev pub third : List ℕ → List ℕ → SendCalls → ℕ → AeadWriter
  third key base c size = final c.reads (second key base c size)

  abbrev pub trailer_of : List ℕ → ℕ → List ℕ
  trailer_of all size = meta_prefix ++ P.marshal (metadata all size)

  -- The result of a sender that ends in this state.
  abbrev pub sealed : AeadWriter → List ℕ → ℕ → Sent
  sealed w all size = record { digest = P.hash all; size = size; stream = w.sent }

  send_trailer-eq-ok :
      (w : AeadWriter) (hashed : List ℕ) (size : ℕ) (s : Sent)
      → send_trailer size (w, hashed) ≡ ok s
      → (length (trailer_of hashed size) ≤ max_aead_plaintext_size)
        × (s ≡ sealed (after w (trailer_of hashed size)) hashed size)
  unfolding send_trailer
  send_trailer-eq-ok w hashed size s h =
      let trailer = trailer_of hashed size in
      let next : AeadWriter → Fallible TransferError Sent = λ v. ok (sealed v hashed size) in
      let (v, e, h1) = >>=-eq-ok (write_chunk w trailer) next h in
      let (fits, v_is) = write_chunk-eq-ok w v trailer e in
      (fits, sym (ground (arith, h1)) ∙ ap (λ x. sealed x hashed size) v_is)

  pub send_stream-eq-ok :
      (key base : List ℕ) (c : SendCalls) (size : ℕ) (s : Sent)
      → send_stream key c size base ≡ ok s
      → AreSmall c.reads
        × ((length (trailer_of (contents c.reads) size) ≤ max_aead_plaintext_size)
            × (s
                ≡ sealed
                    (after (third key base c size) (trailer_of (contents c.reads) size))
                    (contents c.reads)
                    size))
  unfolding send_stream write
  send_stream-eq-ok key base c size s h =
      let header = file_header c.name size in
      let next1 : AeadWriter → Fallible TransferError Sent =
        λ w1. send_chunks c.reads w1 [] >>= send_trailer size in
      let next0 : AeadWriter → Fallible TransferError Sent =
        λ w0. write_chunk w0 header >>= next1 in
      let (w0, e0, h0) = >>=-eq-ok (write (new_writer key base c) base) next0 h in
      let w0_is : w0 ≡ first key base c = ground (arith, e0) in
      let (w1, e1, h1) = >>=-eq-ok (write_chunk w0 header) next1 h0 in
      let w1_is : w1 ≡ second key base c size =
        (write_chunk-eq-ok w0 w1 header e1).1 ∙ ap (λ w. after w header) w0_is in
      let ((w2, hashed), e2, h2) = >>=-eq-ok (send_chunks c.reads w1 []) (send_trailer size) h1 in
      let (small, (w2_is, hashed_is)) = send_chunks-eq-ok c.reads w1 w2 [] hashed e2 in
      let (fits, s_is) = send_trailer-eq-ok w2 hashed size s h2 in
      let w_is : w2 ≡ third key base c size = w2_is ∙ ap (final c.reads) w1_is in
      (
        small,
        (
          subst (λ all. length (trailer_of all size) ≤ max_aead_plaintext_size) hashed_is fits,
          s_is
              ∙ ap (λ w. sealed (after w (trailer_of hashed size)) hashed size) w_is
              ∙ ap (λ all. sealed (after (third key base c size) (trailer_of all size)) all size)
                  hashed_is,
        ),
      )
