-- ===== src/Prelude/Texts.antt =====
-- Go's `<` on texts and on numbers, as total orders. The bytes of UTF-8 are ordered as the characters'
-- codes.
use Prim.Native.Char.{code}
use Prim.Native.String.{String}
use mathlib.Core.Path.{◌≡◌, refl, ap}
use mathlib.Core.Bool.{Bool, true, false}
use native.Mathlib.Omega.{arith}
use text.Mathlib.TextEquality.{Char-path}
use wormzy.Prelude.Tests.{if◌then◌else◌, ltb}
use wormzy.Prelude.Int.{ℤ, pos, negsuc, ltb_ℤ}
use wormzy.Prelude.Sort.{TotalOrder}

unfoldable pub text_less : String → String → Bool
text_less String.[] String.[] = false
text_less String.[] (String.◌∷◌ d t) = true
text_less (String.◌∷◌ c s) String.[] = false
text_less (String.◌∷◌ c s) (String.◌∷◌ d t) =
    if ltb (code c) (code d) then true else if ltb (code d) (code c) then false else text_less s t

text_less_asym : (s t : String) → text_less s t ≡ true → text_less t s ≡ false
unfolding text_less
text_less_asym String.[] String.[] h = refl
text_less_asym String.[] (String.◌∷◌ d t) h = refl
text_less_asym (String.◌∷◌ c s) String.[] h = ground (arith, h)
text_less_asym (String.◌∷◌ c s) (String.◌∷◌ d t) h = ground (arith, h, text_less_asym s t)

text_less_trans :
    (s t u : String) → text_less t s ≡ false → text_less u t ≡ false → text_less u s ≡ false
unfolding text_less
text_less_trans String.[] t String.[] h k = refl
text_less_trans String.[] t (String.◌∷◌ e u) h k = refl
text_less_trans (String.◌∷◌ c s) String.[] u h k = ground (arith, h)
text_less_trans (String.◌∷◌ c s) (String.◌∷◌ d t) String.[] h k = ground (arith, k)
text_less_trans (String.◌∷◌ c s) (String.◌∷◌ d t) (String.◌∷◌ e u) h k =
    ground (arith, h, k, text_less_trans s t u)

text_less_antisym : (s t : String) → text_less s t ≡ false → text_less t s ≡ false → s ≡ t
unfolding text_less
text_less_antisym String.[] String.[] h k = refl
text_less_antisym String.[] (String.◌∷◌ d t) h k = absurd (ground (arith, h))
text_less_antisym (String.◌∷◌ c s) String.[] h k = absurd (ground (arith, k))
text_less_antisym (String.◌∷◌ c s) (String.◌∷◌ d t) h k =
    let front : c ≡ d = Char-path c d (ground (arith, h, k)) in
    let back : s ≡ t = text_less_antisym s t (ground (arith, h, k)) (ground (arith, h, k)) in
    λ i. String.◌∷◌ (front i) (back i)

pub text_less-TotalOrder : TotalOrder text_less
text_less-TotalOrder = record {
  asym = text_less_asym;
  trans = text_less_trans;
  antisym = text_less_antisym;
}

ltb_ℤ_asym : (x y : ℤ) → ltb_ℤ x y ≡ true → ltb_ℤ y x ≡ false
ltb_ℤ_asym (pos a) (pos b) h = ground (arith, h)
ltb_ℤ_asym (pos a) (negsuc b) h = ground (arith, h)
ltb_ℤ_asym (negsuc a) (pos b) h = refl
ltb_ℤ_asym (negsuc a) (negsuc b) h = ground (arith, h)

ltb_ℤ_trans : (x y z : ℤ) → ltb_ℤ y x ≡ false → ltb_ℤ z y ≡ false → ltb_ℤ z x ≡ false
ltb_ℤ_trans (pos a) (pos b) (pos c) h k = ground (arith, h, k)
ltb_ℤ_trans (pos a) (pos b) (negsuc c) h k = ground (arith, h, k)
ltb_ℤ_trans (pos a) (negsuc b) z h k = ground (arith, h)
ltb_ℤ_trans (negsuc a) y (pos c) h k = refl
ltb_ℤ_trans (negsuc a) (pos b) (negsuc c) h k = ground (arith, k)
ltb_ℤ_trans (negsuc a) (negsuc b) (negsuc c) h k = ground (arith, h, k)

ltb_ℤ_antisym : (x y : ℤ) → ltb_ℤ x y ≡ false → ltb_ℤ y x ≡ false → x ≡ y
ltb_ℤ_antisym (pos a) (pos b) h k = ap pos (ground (arith, h, k))
ltb_ℤ_antisym (pos a) (negsuc b) h k = absurd (ground (arith, k))
ltb_ℤ_antisym (negsuc a) (pos b) h k = absurd (ground (arith, h))
ltb_ℤ_antisym (negsuc a) (negsuc b) h k = ap negsuc (ground (arith, h, k))

pub ltb_ℤ-TotalOrder : TotalOrder ltb_ℤ
ltb_ℤ-TotalOrder = record { asym = ltb_ℤ_asym; trans = ltb_ℤ_trans; antisym = ltb_ℤ_antisym }
