-- ===== src/Encoding/Hex.antt =====
-- `encoding/hex`: what EncodeToString writes, DecodeString reads back.
use wormzy.Prelude.{ℕ, ◌/◌, ◌%◌, ◌<◌, some, List, [], ◌∷◌, All, ◌≡◌, refl, ap, arith}
use wormzy.Encoding.{hex_decode, hex_encode, hex_digit, hex_char}

hex_digit-hex_char : (v : ℕ) → v < 16 → hex_digit (hex_char v) ≡ some v
unfolding hex_digit
hex_digit-hex_char v h = ground arith

pub hex_decode-hex_encode :
    (bytes : List ℕ) → All (λ b. b < 256) bytes → hex_decode (hex_encode bytes) ≡ some bytes
unfolding hex_decode hex_encode
hex_decode-hex_encode [] h = refl
hex_decode-hex_encode (b ∷ rest) (x, xs) =
    rw
      (
        hex_digit-hex_char (b / 16) (omega arith),
        hex_digit-hex_char (b % 16) (omega arith),
        hex_decode-hex_encode rest xs,
      )
      (ap (λ (c : ℕ). some (c ∷ rest)) (omega arith))
