-- ===== src/Prelude/Sort.antt =====
-- `sort.Slice` and `sort.SliceStable`: a stable sort by a Boolean test, whose result for a total order
-- does not depend on the order of its input.
use mathlib.Core.Path.{◌≡◌, refl, ap, ◌∙◌}
use mathlib.Core.Logic.{inl, inr}
use mathlib.Core.Bool.{Bool, true, false}
use mathlib.Core.List.{List, [], ◌∷◌, Permᴰ}
use native.Mathlib.Omega.{arith}
use wormzy.Prelude.Tests.{Eq, ◌!=◌, if◌then◌else◌, Bool-cases}
use wormzy.Prelude.Lists.{All}

module _ {ℓ} {A : Type ℓ} (less : A → A → Bool) where
  -- Before the first entry that is not less.
  unfoldable pub place : A → List A → List A
  place a [] = a ∷ []
  place a (b ∷ rest) = if less b a then b ∷ place a rest else a ∷ b ∷ rest

  unfoldable pub sorted : List A → List A
  sorted [] = []
  sorted (a ∷ rest) = place a (sorted rest)

  -- No entry is less than the one before it.
  abbrev pub Follows : A → List A → Type 0
  Follows a [] = Unit
  Follows a (b ∷ rest) = less b a ≡ false

  abbrev pub IsSorted : List A → Type 0
  IsSorted [] = Unit
  IsSorted (a ∷ rest) = Follows a rest × IsSorted rest

  pub All-place {κ} : (P : A → Type κ) (a : A) (xs : List A) → P a → All P xs → All P (place a xs)
  unfolding place
  All-place P a [] h hs = (h, tt)
  All-place P a (b ∷ rest) h hs = elim (Bool-cases (less b a)) [
    | inl before ↦ rw before (hs.0, All-place P a rest h hs.1)
    | inr after ↦ rw after (h, hs)
  ]

  pub All-sorted {κ} : (P : A → Type κ) (xs : List A) → All P xs → All P (sorted xs)
  unfolding sorted
  All-sorted P [] hs = tt
  All-sorted P (a ∷ rest) hs = All-place P a (sorted rest) hs.0 (All-sorted P rest hs.1)

  module _ (asym : (a b : A) → less a b ≡ true → less b a ≡ false) where
    place-Follows :
        (a b : A) (xs : List A) → less b a ≡ true → Follows b xs → Follows b (place a xs)
    unfolding place
    place-Follows a b [] before h = asym b a before
    place-Follows a b (c ∷ rest) before h = elim (Bool-cases (less c a)) [
      | inl under ↦ rw under h
      | inr over ↦ rw over (asym b a before)
    ]

    place-IsSorted : (a : A) (xs : List A) → IsSorted xs → IsSorted (place a xs)
    unfolding place
    place-IsSorted a [] h = (tt, tt)
    place-IsSorted a (b ∷ rest) h = elim (Bool-cases (less b a)) [
      | inl before ↦ rw before (place-Follows a b rest before h.0, place-IsSorted a rest h.1)
      | inr after ↦ rw after (after, h)
    ]

    pub sorted-IsSorted : (xs : List A) → IsSorted (sorted xs)
    unfolding sorted
    sorted-IsSorted [] = tt
    sorted-IsSorted (a ∷ rest) = place-IsSorted a (sorted rest) (sorted-IsSorted rest)

  -- A total order, as its strict test.
  pub record TotalOrder : Type ℓ where
    pub asym : (a b : A) → less a b ≡ true → less b a ≡ false
    pub trans : (a b c : A) → less b a ≡ false → less c b ≡ false → less c a ≡ false
    pub antisym : (a b : A) → less a b ≡ false → less b a ≡ false → a ≡ b

  module _ (o : TotalOrder) where
    place-place : (a b : A) (xs : List A) → place a (place b xs) ≡ place b (place a xs)
    unfolding place
    place-place a b [] = ground (arith, o.asym a b, o.asym b a, o.antisym a b)
    place-place a b (c ∷ rest) = ground (
      arith,
      place-place a b rest,
      o.asym a b,
      o.asym b a,
      o.antisym a b,
      o.asym c a,
      o.asym c b,
      o.trans a b c,
      o.trans b a c,
    )

    -- Permuted lists are sorted alike.
    pub sorted-Permᴰ : {xs ys : List A} → Permᴰ xs ys → sorted xs ≡ sorted ys
    unfolding sorted
    sorted-Permᴰ Permᴰ.nil = refl
    sorted-Permᴰ (Permᴰ.cons {b = b} {l₁ = l} e p) =
        ap (λ x. place x (sorted l)) e ∙ ap (place b) (sorted-Permᴰ p)
    sorted-Permᴰ (Permᴰ.swap {a = a} {b = b} {a' = c} {l = l} e f) =
        place-place a b (sorted l)
        ∙ ap (λ x. place x (place a (sorted l))) f
        ∙ ap (λ x. place c (place x (sorted l))) e
    sorted-Permᴰ (Permᴰ.trans p q) = sorted-Permᴰ p ∙ sorted-Permᴰ q

-- An order by a key, and by another test where the keys are equal.
module _ {ℓ κ} {A : Type ℓ} {K : Type κ} ⦃e : Eq K⦄ (key : A → K) (less : K → K → Bool)
    (next : A → A → Bool) where
  abbrev pub by_key : A → A → Bool
  by_key a b = if key a != key b then less (key a) (key b) else next a b

  module _ (o : TotalOrder less) where
    pub by_key_asym :
        ((a b : A) → next a b ≡ true → next b a ≡ false)
        → (a b : A) → by_key a b ≡ true
        → by_key b a ≡ false
    by_key_asym rest a b h = ground (
      arith,
      h,
      e.equal_iff (key a) (key b),
      e.equal_iff (key b) (key a),
      o.asym (key a) (key b),
      rest a b,
    )

    pub by_key_trans :
        ((a b c : A) → next b a ≡ false → next c b ≡ false → next c a ≡ false)
        → (a b c : A) → by_key b a ≡ false
        → by_key c b ≡ false
        → by_key c a ≡ false
    by_key_trans rest a b c h k = ground (
      arith,
      h,
      k,
      e.equal_iff (key b) (key a),
      e.equal_iff (key c) (key b),
      e.equal_iff (key c) (key a),
      o.trans (key a) (key b) (key c),
      o.antisym (key a) (key b),
      o.antisym (key b) (key c),
      rest a b c,
    )

    -- Two entries that neither comes before the other agree in the key.
    pub by_key_antisym :
        (a b : A)
        → by_key a b ≡ false
        → by_key b a ≡ false
        → (key a ≡ key b) × ((next a b ≡ false) × (next b a ≡ false))
    by_key_antisym a b h k =
        let same : key a ≡ key b = ground (
          arith,
          h,
          k,
          e.equal_iff (key a) (key b),
          e.equal_iff (key b) (key a),
          o.antisym (key a) (key b),
        ) in
        let ab = e.equal_iff (key a) (key b) in
        let ba = e.equal_iff (key b) (key a) in
        (same, (ground (arith, h, same, ab, ba), ground (arith, k, same, ab, ba)))
