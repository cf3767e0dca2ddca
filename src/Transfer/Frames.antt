-- ===== src/Transfer/Frames.antt =====
-- internal/transport/transport.go, aeadWriter and aeadReader: the encrypted frames.
use wormzy.Prelude.{
  ℕ, ◌+◌, ◌*◌, ◌/◌, ◌%◌, ◌^◌, ◌≤◌, Bool, false, not, ◌||◌, List, [], ◌∷◌, ◌++◌, length, ◌≡◌, refl,
  arith, if◌then◌else◌, ltb, none, some,
}
use wormzy.Prelude.Fallible.{Fallible, ok, fail, ◌>>=◌, ◌>>◌, require}
use mathlib.Core.List.{append_assoc}
use wormzy.Completion.{take_full}
use wormzy.Completion.Frames.{take_full-append}
use wormzy.Transfer.{
  TransferError, eof, unexpected_eof, stream_error, plaintext_too_large, invalid_frame_size,
  open_failed, write_failed, Primitives, max_aead_plaintext_size, max_aead_ciphertext_size,
  overhead,
}
use wormzy.Transfer.Nonce.{make_nonce}

-- What a stream still delivers. It then ends by io.EOF or, if it is cut, by another error: a reset,
-- a deadline or a cancellation.
pub record Stream : Type 0 where
  pub pending : List ℕ
  pub cut : Bool

-- `accepts n` says whether a write succeeds when n bytes were written before it.
pub record AeadWriter : Type 0 where
  pub key : List ℕ
  pub base_nonce : List ℕ
  pub ctr : ℕ
  pub sent : List ℕ
  pub accepts : ℕ → Bool

pub record AeadReader : Type 0 where
  pub key : List ℕ
  pub base_nonce : List ℕ
  pub ctr : ℕ
  pub input : Stream

-- A write to the stream.
unfoldable pub write : AeadWriter → List ℕ → Fallible TransferError AeadWriter
write w bytes =
    if w.accepts (length w.sent)
    then ok (record w { sent = w.sent ++ bytes })
    else fail write_failed

-- The error of a read that the stream cannot satisfy.
unfoldable pub ended : Stream → TransferError
ended s = if s.cut then stream_error else elim s.pending [ [] ↦ eof | _ ∷ _ ↦ unexpected_eof ]

-- io.ReadFull
unfoldable pub read_full : ℕ → Stream → Fallible TransferError (List ℕ × Stream)
read_full size s = elim (take_full size s.pending) [
  | none ↦ fail (ended s)
  | some (got, left) ↦ ok (got, record s { pending = left })
]

-- binary.BigEndian, four bytes
abbrev pub be32 : ℕ → List ℕ
be32 n = n / 2 ^ 24 % 256 ∷ n / 2 ^ 16 % 256 ∷ n / 2 ^ 8 % 256 ∷ n % 256 ∷ []

unfoldable pub be_value : List ℕ → ℕ → ℕ
be_value [] high = high
be_value (b ∷ bs) high = be_value bs (high * 256 + b)

module _ ⦃P : Primitives⦄ where
  unfoldable pub write_chunk : AeadWriter → List ℕ → Fallible TransferError AeadWriter
  write_chunk w p =
      require (not (ltb max_aead_plaintext_size (length p))) plaintext_too_large
      >> (let ct = P.seal w.key (make_nonce w.base_nonce w.ctr) p in
          write w (be32 (length ct)) >>= λ v.
          write v ct >>= λ u. ok (record u { ctr = (w.ctr + 1) % 2 ^ 64 }))

  unfoldable pub read_chunk : AeadReader → Fallible TransferError (List ℕ × AeadReader)
  read_chunk r = read_full 4 r.input >>= λ (size, s).
      (let ln = be_value size 0 in
        require (not (ltb ln overhead || ltb max_aead_ciphertext_size ln)) invalid_frame_size
        >> (read_full ln s >>= λ (ct, left).
            elim (P.unseal r.key (make_nonce r.base_nonce r.ctr) ct) [
              | none ↦ fail open_failed
              | some pt ↦ ok (pt, record r { ctr = (r.ctr + 1) % 2 ^ 64; input = left })
            ]))

  -- The bytes of one frame.
  unfoldable pub frame : List ℕ → List ℕ → ℕ → List ℕ → List ℕ
  frame key base ctr p = let ct = P.seal key (make_nonce base ctr) p in be32 (length ct) ++ ct

  pub write_chunk-eq-ok :
      (w v : AeadWriter) (p : List ℕ)
      → write_chunk w p ≡ ok v
      → (length p ≤ max_aead_plaintext_size)
        × (v ≡ record w {
          sent = w.sent ++ frame w.key w.base_nonce w.ctr p;
          ctr = (w.ctr + 1) % 2 ^ 64;
        })
  unfolding write_chunk write frame
  write_chunk-eq-ok w v p h =
      let ct = P.seal w.key (make_nonce w.base_nonce w.ctr) p in
      (ground (arith, h), ground (arith, h, append_assoc w.sent (be32 (length ct)) ct))

  pub read_chunk-frame :
      (r : AeadReader) (p rest : List ℕ)
      → length p ≤ max_aead_plaintext_size
      → r.input.pending ≡ frame r.key r.base_nonce r.ctr p ++ rest
      → read_chunk r
        ≡ ok (
          p,
          record r {
            ctr = (r.ctr + 1) % 2 ^ 64;
            input = record { pending = rest; cut = r.input.cut };
          },
        )
  unfolding read_chunk read_full frame be_value take_full
  read_chunk-frame r p rest small e =
      let ct = P.seal r.key (make_nonce r.base_nonce r.ctr) p in
      let size = P.seal_size r.key (make_nonce r.base_nonce r.ctr) p in
      let head : take_full 4 r.input.pending ≡ some (be32 (length ct), ct ++ rest) = rw e refl in
      let value : be_value (be32 (length ct)) 0 ≡ length ct = omega arith in
      ground (
        arith,
        head,
        value,
        size,
        take_full-append ct rest,
        P.unseal-seal r.key (make_nonce r.base_nonce r.ctr) p,
      )

  -- At the end of a stream that is not cut, there is no frame.
  pub read_chunk-end :
      (r : AeadReader) → r.input ≡ record { pending = []; cut = false } → read_chunk r ≡ fail eof
  unfolding read_chunk read_full take_full ended
  read_chunk-end r e = rw e refl
