-- ===== src/Rendezvous/Codes.antt =====
-- internal/rendezvous/rendezvous.go, NormalizeCode: the canonical form of a pairing code.
use wormzy.Prelude.{
  ℕ, suc, true, Nat_eq, List, [], ◌∷◌, ◌++◌, length, take, drop, All, ◌≡◌, refl, ap, ◌∙◌, subst,
  Option, arith, inl, inr,
}
use wormzy.Prelude.Fallible.{ok, Fallible-cases}
use wormzy.Rendezvous.{
  is_code_symbol, generated_code_symbols, generated_code_max_random_draws, normal_symbol,
  normal_symbols, normalize_code, draw_symbols, generate_code_from,
}

abbrev pub IsSymbol : ℕ → Type 0
IsSymbol c = is_code_symbol c ≡ true

-- Three symbols, a hyphen, three symbols.
pub data IsCanonical : List ℕ → Type 0 where
  canonical :
      {a b c d e f : ℕ}
      → IsSymbol a
      → IsSymbol b
      → IsSymbol c
      → IsSymbol d
      → IsSymbol e
      → IsSymbol f
      → IsCanonical (a ∷ b ∷ c ∷ b'-' ∷ d ∷ e ∷ f ∷ [])

normal_symbol-IsSymbol : (s c : ℕ) → normal_symbol s ≡ ok c → IsSymbol c
unfolding normal_symbol
normal_symbol-IsSymbol s c h = ground (arith, h)

normal_symbol-id : (c : ℕ) → IsSymbol c → normal_symbol c ≡ ok c
unfolding normal_symbol is_code_symbol
normal_symbol-id c h = ground (arith, h)

normal_symbols-All :
    (ss cs : List ℕ) → normal_symbols ss ≡ ok cs → (length cs ≡ length ss) × All IsSymbol cs
unfolding normal_symbols
normal_symbols-All [] cs h =
    let none_left : [] ≡ cs = ground (arith, h) in rw (← none_left) (refl, tt)
normal_symbols-All (s ∷ ss) cs h = elim (Fallible-cases (normal_symbol s)) [
  | inr (e, bad) ↦ absurd (ground (arith, h, bad))
  | inl (c, good) ↦ elim (Fallible-cases (normal_symbols ss)) [
    | inr (e, bad) ↦ absurd (ground (arith, h, good, bad))
    | inl (rest, all) ↦
        let (size, symbols) = normal_symbols-All ss rest all in
        let made : c ∷ rest ≡ cs = ground (arith, h, good, all) in
        rw (← made) (ap suc size, (normal_symbol-IsSymbol s c good, symbols))
  ]
]

pub six_symbols :
    (cs : List ℕ) → length cs ≡ 6 → All IsSymbol cs → IsCanonical (take 3 cs ++ b'-' ∷ drop 3 cs)
unfolding take drop
six_symbols (a ∷ b ∷ c ∷ d ∷ e ∷ f ∷ []) n (x0, (x1, (x2, (x3, (x4, (x5, _)))))) =
    canonical x0 x1 x2 x3 x4 x5
six_symbols (a ∷ b ∷ c ∷ d ∷ e ∷ f ∷ g ∷ cs) n h = absurd (omega (arith, n))
six_symbols (a ∷ b ∷ c ∷ d ∷ e ∷ []) n h = absurd (omega (arith, n))
six_symbols (a ∷ b ∷ c ∷ d ∷ []) n h = absurd (omega (arith, n))
six_symbols (a ∷ b ∷ c ∷ []) n h = absurd (omega (arith, n))
six_symbols (a ∷ b ∷ []) n h = absurd (omega (arith, n))
six_symbols (a ∷ []) n h = absurd (omega (arith, n))
six_symbols [] n h = absurd (omega (arith, n))

seven_runes : (g : List ℕ) → length g ≡ 7 → length (take 3 g ++ drop 4 g) ≡ 6
unfolding take drop
seven_runes (a ∷ b ∷ c ∷ d ∷ rest) n = omega (arith, n)
seven_runes (a ∷ b ∷ c ∷ []) n = absurd (omega (arith, n))
seven_runes (a ∷ b ∷ []) n = absurd (omega (arith, n))
seven_runes (a ∷ []) n = absurd (omega (arith, n))
seven_runes [] n = absurd (omega (arith, n))

module _ (trim : List ℕ → List ℕ) where
  -- If a code has a canonical form, then the form is three symbols of the alphabet, a hyphen, and
  -- three symbols.
  pub normalize_code-IsCanonical :
      (code form : List ℕ) → normalize_code trim code ≡ ok form → IsCanonical form
  unfolding normalize_code
  normalize_code-IsCanonical code form h =
      let grouped = trim code in
      let symbols = take 3 grouped ++ drop 4 grouped in
      elim (Fallible-cases (normal_symbols symbols)) [
        | inr (e, bad) ↦ absurd (ground (arith, h, bad))
        | inl (cs, good) ↦
            let (size, all) = normal_symbols-All symbols cs good in
            let seven : length grouped ≡ 7 = ground (arith, h) in
            let made : take 3 cs ++ b'-' ∷ drop 3 cs ≡ form = ground (arith, h, good) in
            subst IsCanonical made (six_symbols cs (size ∙ seven_runes grouped seven) all)
      ]

  -- A canonical code is its own canonical form.
  pub normalize_code-canonical :
      (form : List ℕ) → IsCanonical form → trim form ≡ form → normalize_code trim form ≡ ok form
  unfolding normalize_code normal_symbols take drop
  normalize_code-canonical form (canonical {a} {b} {c} {d} {e} {f} x0 x1 x2 x3 x4 x5) kept =
      rw kept (
        ground (
          arith,
          normal_symbol-id a x0,
          normal_symbol-id b x1,
          normal_symbol-id c x2,
          normal_symbol-id d x3,
          normal_symbol-id e x4,
          normal_symbol-id f x5,
        ))

  pub generate_code_from-IsCanonical :
      (random : List (Option ℕ)) (form : List ℕ)
      → generate_code_from trim random ≡ ok form
      → IsCanonical form
  unfolding generate_code_from
  generate_code_from-IsCanonical random form h =
      elim (Fallible-cases
        (draw_symbols generated_code_max_random_draws generated_code_symbols random)) [
          | inr (e, bad) ↦ absurd (ground (arith, h, bad))
          | inl (cs, good) ↦
              normalize_code-IsCanonical (take 3 cs ++ b'-' ∷ drop 3 cs) form
                (ground (arith, h, good))
        ]
