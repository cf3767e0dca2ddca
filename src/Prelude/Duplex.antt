-- ===== src/Prelude/Duplex.antt =====
-- Two sides that talk over a stream, in any interleaving. A side goes on when its next operation can:
-- a read waits until the bytes that it asks for have been written.
use mathlib.Core.Path.{◌≡◌, refl, sym, subst}
use mathlib.Core.Logic.{◌⊎◌, inl, inr}
use mathlib.Core.Option.{Option, none, some}
use mathlib.Core.List.{List, ◌++◌}
use Prim.Native.Nat.{ℕ, zero, suc, ◌+◌}
use native.Mathlib.Omega.{arith}

-- What a side does next, given the bytes that wait for it: its state after that, the bytes that still
-- wait, and those that it writes.
pub record Duplex (S : Type 0) : Type 0 where
  pub advance : S → List ℕ → Option (S × (List ℕ × List ℕ))
  pub advance-more :
      (s t : S) (inbox rest out more : List ℕ)
      → advance s inbox ≡ some (t, (rest, out))
      → advance s (inbox ++ more) ≡ some (t, (rest ++ more, out))

-- Both sides, each with the bytes that wait for it.
pub record Pair (S : Type 0) : Type 0 where
  pub left : S
  pub right : S
  pub to_left : List ℕ
  pub to_right : List ℕ

module _ {S : Type 0} (d : Duplex S) where
  open d use {advance, advance-more}

  pub data Move (p q : Pair S) : Type 0 where
    left_moves :
        (s : S) (rest out : List ℕ)
        → advance p.left p.to_left ≡ some (s, (rest, out))
        → q ≡ record { left = s; right = p.right; to_left = rest; to_right = p.to_right ++ out }
        → Move p q
    right_moves :
        (s : S) (rest out : List ℕ)
        → advance p.right p.to_right ≡ some (s, (rest, out))
        → q ≡ record { left = p.left; right = s; to_left = p.to_left ++ out; to_right = rest }
        → Move p q

  -- So many moves lead from one state to another.
  abbrev pub Runs : ℕ → Pair S → Pair S → Type 0
  Runs zero p q = p ≡ q
  Runs (suc n) p q = (m : Pair S) × (Move p m × Runs n m q)

  pub by_left :
      (n : ℕ) (l r s : S) (a b rest out : List ℕ) (f : Pair S)
      → advance l a ≡ some (s, (rest, out))
      → Runs n (record { left = s; right = r; to_left = rest; to_right = b ++ out }) f
      → Runs (suc n) (record { left = l; right = r; to_left = a; to_right = b }) f
  by_left n l r s a b rest out f e run = (_, (left_moves s rest out e refl, run))

  pub by_right :
      (n : ℕ) (l r s : S) (a b rest out : List ℕ) (f : Pair S)
      → advance r b ≡ some (s, (rest, out))
      → Runs n (record { left = l; right = s; to_left = a ++ out; to_right = rest }) f
      → Runs (suc n) (record { left = l; right = r; to_left = a; to_right = b }) f
  by_right n l r s a b rest out f e run = (_, (right_moves s rest out e refl, run))

  -- Neither side can move.
  abbrev pub IsStill : Pair S → Type 0
  IsStill p = (advance p.left p.to_left ≡ none) × (advance p.right p.to_right ≡ none)

  still : (p q : Pair S) → IsStill p → ¬ Move p q
  still p q h (left_moves s rest out e _) = absurd (ground (arith, h.0, e))
  still p q h (right_moves s rest out e _) = absurd (ground (arith, h.1, e))

  -- Moves of the two sides commute.
  crossing :
      (p q r : Pair S) (s t : S) (a x b y : List ℕ)
      → advance p.left p.to_left ≡ some (s, (a, x))
      → q ≡ record { left = s; right = p.right; to_left = a; to_right = p.to_right ++ x }
      → advance p.right p.to_right ≡ some (t, (b, y))
      → r ≡ record { left = p.left; right = t; to_left = p.to_left ++ y; to_right = b }
      → (m : Pair S) × (Move q m × Move r m)
  crossing p q r s t a x b y f qe g re = (
    record { left = s; right = t; to_left = a ++ y; to_right = b ++ x },
    (
      rw qe (right_moves t (b ++ x) y (advance-more p.right t p.to_right b y x g) refl),
      rw re (left_moves s (a ++ y) x (advance-more p.left s p.to_left a x y f) refl),
    ),
  )

  diamond :
      (p q r : Pair S) → Move p q → Move p r → (q ≡ r) ⊎ ((m : Pair S) × (Move q m × Move r m))
  diamond p q r (left_moves s a x f qe) (left_moves t b y g re) = inl (ground (arith, f, g, qe, re))
  diamond p q r (right_moves s a x f qe) (right_moves t b y g re) =
      inl (ground (arith, f, g, qe, re))
  diamond p q r (left_moves s a x f qe) (right_moves t b y g re) =
      inr (crossing p q r s t a x b y f qe g re)
  diamond p q r (right_moves s a x f qe) (left_moves t b y g re) =
      let (m, (second, first)) = crossing p r q t s b y a x g re f qe in inr (m, (first, second))

  -- Whatever move comes first, the end is reached, in as many moves.
  strip :
      (n : ℕ) (p q f : Pair S)
      → IsStill f
      → Runs n p f
      → Move p q
      → (i : ℕ) × ((1 + i ≡ n) × Runs i q f)
  strip zero p q f h e mv = absurd (still p q (subst IsStill (sym e) h) mv)
  strip (suc n) p q f h (m, (first, rest)) mv = elim (diamond p q m mv first) [
    | inl same ↦ (n, (omega arith, subst (λ x. Runs n x f) (sym same) rest))
    | inr (x, (after, other)) ↦
        let (i, (size, run)) = strip n m x f h rest other in
        (suc i, (omega (arith, size), (x, (after, run))))
  ]

  -- If one run ends where neither side can move, then every run goes on to that end, and all runs to
  -- it have the same length.
  pub Runs-end :
      (n j : ℕ) (p q f : Pair S)
      → IsStill f
      → Runs n p f
      → Runs j p q
      → (i : ℕ) × ((j + i ≡ n) × Runs i q f)
  Runs-end n zero p q f h run e = (n, (omega arith, subst (λ x. Runs n x f) e run))
  Runs-end n (suc j) p q f h run (m, (first, rest)) =
      let (k, (size, after)) = strip n p m f h run first in
      let (i, (more, end)) = Runs-end k j m q f h after rest in
      (i, (omega (arith, size, more), end))
