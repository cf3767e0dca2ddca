-- ===== src/Rendezvous.antt =====
-- internal/rendezvous/rendezvous.go: pairing codes. A code is the
-- list of its bytes or runes.
pub mod Codes
pub mod Draws
use wormzy.Prelude.{
  ℕ, ◌+◌, ◌-◌, ◌*◌, ◌%◌, zero, suc, Bool, true, false, not, ◌&&◌, ◌||◌, ◌==◌, Nat_eq, Option, none,
  some, List, [], ◌∷◌, ◌++◌, length, take, drop, codes, contains, map, every, if◌then◌else◌, ltb,
  leb,
}
use wormzy.Prelude.Fallible.{Fallible, ok, fail, ◌>>=◌, ◌>>◌, require}

pub data CodeError : Type 0 where
  invalid_format non_ascii_character invalid_character : CodeError
  no_randomness no_usable_values : CodeError

abbrev pub generated_code_alphabet : List ℕ
generated_code_alphabet = codes "23456789abcdefghjkmnpqrstvwxyz"

abbrev pub generated_code_alphabet_size : ℕ
generated_code_alphabet_size = 30

abbrev pub generated_code_rejection_limit : ℕ
generated_code_rejection_limit = 256 - 256 % generated_code_alphabet_size

abbrev pub generated_code_symbols : ℕ
generated_code_symbols = 6

abbrev pub generated_code_max_random_draws : ℕ
generated_code_max_random_draws = generated_code_symbols * 16

abbrev pub generated_code_group_size : ℕ
generated_code_group_size = 3

unfoldable pub is_code_symbol : ℕ → Bool
is_code_symbol = contains generated_code_alphabet

-- One symbol in its canonical form.
unfoldable pub normal_symbol : ℕ → Fallible CodeError ℕ
normal_symbol symbol =
    let lower = if leb b'A' symbol && leb symbol b'Z' then symbol + 32 else symbol in
    if ltb 127 lower
    then fail non_ascii_character
    else if is_code_symbol lower
    then ok lower
    else fail invalid_character

unfoldable pub normal_symbols : List ℕ → Fallible CodeError (List ℕ)
normal_symbols [] = ok []
normal_symbols (s ∷ ss) = normal_symbol s >>= λ c. normal_symbols ss >>= λ cs. ok (c ∷ cs)

-- Whether the rune at the place is the hyphen.
abbrev pub hyphen_first : List ℕ → Bool
hyphen_first [] = false
hyphen_first (c ∷ rest) = c == b'-'

-- `trim` is strings.TrimSpace.
unfoldable pub normalize_code : (List ℕ → List ℕ) → List ℕ → Fallible CodeError (List ℕ)
normalize_code trim code =
    let grouped = trim code in
    require
      (length grouped == generated_code_symbols + 1
        && hyphen_first (drop generated_code_group_size grouped))
      invalid_format
    >> (normal_symbols
          (take generated_code_group_size grouped ++ drop (generated_code_group_size + 1) grouped)
        >>= λ symbols. ok (
            take generated_code_group_size symbols
            ++ b'-' ∷ drop generated_code_group_size symbols))

-- alphabet[i]
unfoldable pub symbol_at : ℕ → List ℕ → ℕ
symbol_at i [] = 0
symbol_at zero (c ∷ cs) = c
symbol_at (suc i) (c ∷ cs) = symbol_at i cs

-- The loop: at most so many draws for so many symbols. A draw is a byte, or none where the source of
-- randomness fails.
unfoldable pub draw_symbols : ℕ → ℕ → List (Option ℕ) → Fallible CodeError (List ℕ)
draw_symbols draws zero random = ok []
draw_symbols zero (suc wanted) random = ok []
draw_symbols (suc draws) (suc wanted) [] = fail no_randomness
draw_symbols (suc draws) (suc wanted) (none ∷ random) = fail no_randomness
draw_symbols (suc draws) (suc wanted) (some value ∷ random) =
    let again = draw_symbols draws (suc wanted) random in
    let more = draw_symbols draws wanted random in
    if leb generated_code_rejection_limit value
    then again
    else more >>= λ rest.
        ok (symbol_at (value % generated_code_alphabet_size) generated_code_alphabet ∷ rest)

unfoldable pub generate_code_from :
    (List ℕ → List ℕ) → List (Option ℕ) → Fallible CodeError (List ℕ)
generate_code_from trim random =
    draw_symbols generated_code_max_random_draws generated_code_symbols random >>= λ encoded.
    require (length encoded == generated_code_symbols) no_usable_values
    >> normalize_code trim
        (take generated_code_group_size encoded ++ b'-' ∷ drop generated_code_group_size encoded)
