-- ===== src/Completion/Frames.antt =====
-- internal/transport/transfer_completion.go: the length-prefixed frames.
use wormzy.Prelude.{
  zero, suc, ℕ, ◌+◌, ◌*◌, ◌/◌, ◌%◌, some, List, [], ◌∷◌, ◌++◌, length, ◌≡◌, refl, arith, inl, inr,
  Bool-cases, Option-cases, ltb, ◌==◌, Nat_eq, ◌||◌,
}
use wormzy.Completion.{
  done, TransferCompletionMessage, Primitives, write_message, read_message, take_full, decode_body,
  max_message_size,
}

pub take_full-append : (xs ys : List ℕ) → take_full (length xs) (xs ++ ys) ≡ some (xs, ys)
unfolding take_full
take_full-append [] ys = refl
take_full-append (x ∷ xs) ys = rw (take_full-append xs ys) refl

-- Bytes that come later change nothing for a read that is satisfied.
pub take_full-more :
    (n : ℕ) (bytes got left more : List ℕ)
    → take_full n bytes ≡ some (got, left)
    → take_full n (bytes ++ more) ≡ some (got, left ++ more)
unfolding take_full
take_full-more zero bytes got left more h = ground (arith, h)
take_full-more (suc n) [] got left more h = absurd (ground (arith, h))
take_full-more (suc n) (b ∷ bytes) got left more h = elim (Option-cases (take_full n bytes)) [
  | inl short ↦ absurd (ground (arith, short, h))
  | inr ((g, l), full) ↦ ground (arith, full, h, take_full-more n bytes g l more full)
]

module _ ⦃P : Primitives⦄ where
  decode_body_lem :
      (raw left : List ℕ) (m : TransferCompletionMessage)
      → P.decode raw ≡ some m
      → decode_body (some (raw, left)) ≡ done (m, left)
  decode_body_lem raw left m d = ground (arith, d)

  -- If the decoder reads back the JSON of a message, then a frame that is written for the message
  -- is read back as it, whatever bytes follow, and those bytes are left.
  pub read_message-write_message :
      (m : TransferCompletionMessage) (frame rest : List ℕ)
      → P.decode (P.marshal m) ≡ some m
      → write_message m ≡ done frame
      → read_message (frame ++ rest) ≡ done (m, rest)
  unfolding write_message read_message
  read_message-write_message m frame rest d h =
      elim (Bool-cases (length (P.marshal m) == 0 || ltb max_message_size (length (P.marshal m)))) [
        | inl big ↦ absurd (ground arith)
        | inr fits ↦
            let raw = P.marshal m in
            let made : frame ≡ length raw / 256 ∷ length raw % 256 ∷ raw = ground arith in
            let size : length raw / 256 * 256 + length raw % 256 ≡ length raw = omega arith in
            rw (made, size, fits, take_full-append raw rest) (decode_body_lem raw rest m d)
      ]
