-- ===== src/Rendezvous/Draws.antt =====
-- internal/rendezvous/rendezvous.go, generateCodeFrom: the draws.
use wormzy.Prelude.{
  ℕ, ◌%◌, ◌≤◌, ◌<◌, zero, suc, Bool, true, false, ◌==◌, Nat_eq, nat_eq_iff, some, List, [], ◌∷◌,
  ◌++◌, map, length, take, drop, contains, every, All, ◌≡◌, refl, ap, sym, ◌∙◌, arith, leb,
  if◌then◌else◌, inl, inr, Bool-cases,
}
use wormzy.Prelude.Fallible.{Fallible, ok}
use wormzy.Rendezvous.{
  CodeError, is_code_symbol, generated_code_alphabet, generated_code_symbols,
  generated_code_max_random_draws, generated_code_rejection_limit, generated_code_alphabet_size,
  symbol_at, draw_symbols, generate_code_from,
}
use wormzy.Rendezvous.Codes.{IsSymbol, IsCanonical, six_symbols, normalize_code-canonical}

-- The bytes below a bound for which one draw gives the symbol.
abbrev is_one : Fallible CodeError (List ℕ) → ℕ → Bool
is_one (ok (d ∷ [])) symbol = d == symbol
is_one _ symbol = false

unfoldable pub bytes_giving : ℕ → ℕ → ℕ
bytes_giving zero symbol = 0
bytes_giving (suc value) symbol =
    let others = bytes_giving value symbol in
    if is_one (draw_symbols 1 1 (some value ∷ [])) symbol then suc others else others

every-contains :
    (p : ℕ → Bool) (xs : List ℕ) (c : ℕ) → every p xs ≡ true → contains xs c ≡ true → p c ≡ true
every-contains p [] c h k = absurd (ground (arith, k))
every-contains p (x ∷ xs) c h k = elim (Bool-cases (x == c)) [
  | inl here ↦
      let same : x ≡ c = ground (arith, here, nat_eq_iff x c) in
      let holds : p x ≡ true = ground (arith, h) in ap p (sym same) ∙ holds
  | inr later ↦ every-contains p xs c (ground (arith, h)) (ground (arith, k, later))
]

all_alike : every (λ c. bytes_giving 256 c == 8) generated_code_alphabet ≡ true
unfolding draw_symbols symbol_at bytes_giving
all_alike = refl

-- Every symbol of the alphabet is given by exactly 8 of the 256 bytes that a draw can yield, so
-- that no symbol is likelier than another.
pub bytes_giving-eq : (symbol : ℕ) → is_code_symbol symbol ≡ true → bytes_giving 256 symbol ≡ 8
unfolding is_code_symbol
bytes_giving-eq symbol h =
    let alike =
      every-contains (λ c. bytes_giving 256 c == 8) generated_code_alphabet symbol all_alike h in
    (nat_eq_iff (bytes_giving 256 symbol) 8).0 alike

-- How many of the first draws are usable.
abbrev pub usable : ℕ → List ℕ → ℕ
usable zero values = 0
usable (suc draws) [] = 0
usable (suc draws) (value ∷ values) =
    let later = usable draws values in
    if leb generated_code_rejection_limit value then later else suc later

every-symbol_at :
    (p : ℕ → Bool) (xs : List ℕ) (i : ℕ)
    → every p xs ≡ true
    → i < length xs
    → p (symbol_at i xs) ≡ true
unfolding symbol_at
every-symbol_at p [] i h k = absurd (omega (arith, k))
every-symbol_at p (x ∷ xs) zero h k = ground (arith, h)
every-symbol_at p (x ∷ xs) (suc i) h k =
    every-symbol_at p xs i (ground (arith, h)) (omega (arith, k))

all_symbols : every is_code_symbol generated_code_alphabet ≡ true
unfolding is_code_symbol
all_symbols = refl

symbol_at-IsSymbol : (i : ℕ) → i < 30 → IsSymbol (symbol_at i generated_code_alphabet)
symbol_at-IsSymbol i h = every-symbol_at is_code_symbol generated_code_alphabet i all_symbols h

draw_symbols-finds :
    (draws wanted : ℕ) (values : List ℕ)
    → wanted ≤ usable draws values
    → (cs : List ℕ) × (draw_symbols draws wanted (map some values) ≡ ok cs)
      × (length cs ≡ wanted)
      × All IsSymbol cs
unfolding draw_symbols
draw_symbols-finds draws zero values h = ([], refl, refl, tt)
draw_symbols-finds zero (suc wanted) values h = absurd (omega (arith, h))
draw_symbols-finds (suc draws) (suc wanted) [] h = absurd (omega (arith, h))
draw_symbols-finds (suc draws) (suc wanted) (value ∷ values) h =
    elim (Bool-cases (leb generated_code_rejection_limit value)) [
      | inl rejected ↦
          let (cs, found, size, all) =
            draw_symbols-finds draws (suc wanted) values (ground (arith, h, rejected)) in
          (cs, ground (arith, rejected, found), size, all)
      | inr accepted ↦
          let (cs, found, size, all) =
            draw_symbols-finds draws wanted values (ground (arith, h, accepted)) in
          (
            symbol_at (value % generated_code_alphabet_size) generated_code_alphabet ∷ cs,
            ground (arith, accepted, found),
            ap suc size,
            (symbol_at-IsSymbol (value % generated_code_alphabet_size) (omega arith), all),
          )
    ]

-- If at least 6 of the first 96 bytes that are drawn are below the rejection limit, and trimming
-- leaves canonical codes alone, then a code is generated, and it is canonical: three symbols of the
-- alphabet, a hyphen, three symbols.
pub generate_code_from-finds :
    (trim : List ℕ → List ℕ) (values : List ℕ)
    → ((form : List ℕ) → IsCanonical form → trim form ≡ form)
    → generated_code_symbols ≤ usable generated_code_max_random_draws values
    → (form : List ℕ) × (generate_code_from trim (map some values) ≡ ok form) × IsCanonical form
unfolding generate_code_from
generate_code_from-finds trim values keeps h =
    let (cs, found, size, all) =
      draw_symbols-finds generated_code_max_random_draws generated_code_symbols values h in
    let form = take 3 cs ++ b'-' ∷ drop 3 cs in
    let good = six_symbols cs size all in
    (
      form,
      ground (arith, found, size, normalize_code-canonical trim form good (keeps form good)),
      good,
    )
