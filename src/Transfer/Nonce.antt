-- ===== src/Transfer/Nonce.antt =====
-- internal/transport/transport.go, makeNonce: one nonce for each frame of a stream.
use wormzy.Prelude.{
  ℕ, ◌+◌, ◌*◌, ◌-◌, ◌/◌, ◌%◌, ◌^◌, ◌<◌, zero, suc, Option, none, some, List, [], ◌∷◌, length, ◌≡◌,
  ◌≢◌, refl, ap, arith, if◌then◌else◌, ◌==◌, Nat_eq, ltb,
}
use mathlib.Core.Option

-- Go's `a ^ b` on numbers of so many bits.
unfoldable pub xor : ℕ → ℕ → ℕ → ℕ
xor zero a b = 0
xor (suc bits) a b = (a % 2 + b % 2) % 2 + 2 * xor bits (a / 2) (b / 2)

-- b[i] ^= x
unfoldable pub xor_at : ℕ → ℕ → List ℕ → List ℕ
xor_at i x [] = []
xor_at zero x (b ∷ bs) = xor 8 b x ∷ bs
xor_at (suc i) x (b ∷ bs) = b ∷ xor_at i x bs

-- byte(ctr >> (8 * i))
abbrev pub low_byte : ℕ → ℕ → ℕ
low_byte i ctr = ctr / 2 ^ (8 * i) % 256

unfoldable pub xor_bytes : ℕ → List ℕ → ℕ → List ℕ
xor_bytes zero base ctr = base
xor_bytes (suc i) base ctr = xor_at (23 - i) (low_byte i ctr) (xor_bytes i base ctr)

unfoldable pub make_nonce : List ℕ → ℕ → List ℕ
make_nonce base ctr = xor_bytes 8 base ctr

power : ℕ → ℕ
power zero = 1
power (suc n) = 2 * power n

xor_injective :
    (bits a x y : ℕ) → x < power bits → y < power bits → xor bits a x ≡ xor bits a y → x ≡ y
unfolding xor power
xor_injective zero a x y hx hy e = omega arith
xor_injective (suc bits) a x y hx hy e =
    let halves : x / 2 ≡ y / 2 =
      xor_injective bits (a / 2) (x / 2) (y / 2) (omega arith) (omega arith) (omega arith) in
    omega arith

abbrev get : ℕ → List ℕ → Option ℕ
get i [] = none
get zero (b ∷ bs) = some b
get (suc i) (b ∷ bs) = get i bs

get-xor_at :
    (i j x : ℕ) (bs : List ℕ)
    → get j (xor_at i x bs) ≡ (if i == j then Option.map (λ b. xor 8 b x) (get j bs) else get j bs)
unfolding xor_at
get-xor_at i j x [] = ground arith
get-xor_at zero zero x (b ∷ bs) = refl
get-xor_at zero (suc j) x (b ∷ bs) = ground arith
get-xor_at (suc i) zero x (b ∷ bs) = ground arith
get-xor_at (suc i) (suc j) x (b ∷ bs) = ground (arith, get-xor_at i j x bs)

-- The loop has changed the bytes that it has passed, once each.
get-xor_bytes :
    (n j : ℕ) (base : List ℕ) (ctr : ℕ)
    → n < 25
    → j < 24
    → get (23 - j) (xor_bytes n base ctr) ≡ (
        if ltb j n
        then Option.map (λ b. xor 8 b (low_byte j ctr)) (get (23 - j) base)
        else get (23 - j) base)
unfolding xor_bytes
get-xor_bytes zero j base ctr small h = ground arith
get-xor_bytes (suc i) j base ctr small h =
    let here = get-xor_at (23 - i) (23 - j) (low_byte i ctr) (xor_bytes i base ctr) in
    ground (arith, here, get-xor_bytes i j base ctr (omega arith) h)

get_within : (j : ℕ) (bs : List ℕ) → j < length bs → (b : ℕ) × (get j bs ≡ some b)
get_within j [] h = absurd (omega (arith, h))
get_within zero (b ∷ bs) h = (b, refl)
get_within (suc j) (b ∷ bs) h = get_within j bs (omega (arith, h))

byte_small : (j c : ℕ) → low_byte j c < power 8
unfolding power
byte_small j c = omega arith

-- Equal nonces of one base agree in each byte of their counters.
make_nonce-low_byte :
    (base : List ℕ) (c d j : ℕ)
    → length base ≡ 24
    → j < 8
    → make_nonce base c ≡ make_nonce base d
    → low_byte j c ≡ low_byte j d
unfolding make_nonce
make_nonce-low_byte base c d j full h e =
    let (b, at) = get_within (23 - j) base (omega arith) in
    let of_c = get-xor_bytes 8 j base c (omega arith) (omega arith) in
    let of_d = get-xor_bytes 8 j base d (omega arith) (omega arith) in
    let both : xor 8 b (low_byte j c) ≡ xor 8 b (low_byte j d) =
      ground (arith, at, of_c, of_d, ap (get (23 - j)) e) in
    xor_injective 8 b (low_byte j c) (low_byte j d) (byte_small j c) (byte_small j d) both

-- Under one base nonce of 24 bytes, two frames whose counters differ, both below 2 ^ 64, have
-- different nonces.
pub make_nonce-ne :
    (base : List ℕ) (c d : ℕ)
    → length base ≡ 24
    → c < 2 ^ 64
    → d < 2 ^ 64
    → c ≢ d
    → make_nonce base c ≢ make_nonce base d
make_nonce-ne base c d full hc hd differ e =
    let bytes : (j : ℕ) → j < 8 → low_byte j c ≡ low_byte j d =
      λ j h. make_nonce-low_byte base c d j full h e in
    differ (
      omega (
        arith,
        bytes 0 (omega arith),
        bytes 1 (omega arith),
        bytes 2 (omega arith),
        bytes 3 (omega arith),
        bytes 4 (omega arith),
        bytes 5 (omega arith),
        bytes 6 (omega arith),
        bytes 7 (omega arith),
      ))
