-- ===== src/Encoding.antt =====
-- The standard library's `encoding/hex` and `encoding/base64` (RawURLEncoding, Strict), on the
-- bytes of a text. Used by internal/transport/relay_client.go, mailbox_capability.go,
-- pairing_route.go and transfer_completion.go.
pub mod Hex
use wormzy.Prelude.{
  ℕ, ◌+◌, ◌-◌, ◌*◌, ◌/◌, ◌%◌, Bool, ◌&&◌, ◌||◌, ◌==◌, Nat_eq, Option, none, some, List, [], ◌∷◌,
  if◌then◌else◌, leb,
}
use mathlib.Core.Option

unfoldable pub hex_digit : ℕ → Option ℕ
hex_digit c =
    if leb b'0' c && leb c b'9'
    then some (c - b'0')
    else if leb b'a' c && leb c b'f'
    then some (c - b'a' + 10)
    else if leb b'A' c && leb c b'F'
    then some (c - b'A' + 10)
    else none

abbrev pub hex_pair : Option ℕ → Option ℕ → Option (List ℕ) → Option (List ℕ)
hex_pair (some h) (some l) (some rest) = some ((h * 16 + l) ∷ rest)
hex_pair _ _ _ = none

-- hex.DecodeString: an odd length or another character is an error.
unfoldable pub hex_decode : List ℕ → Option (List ℕ)
unfolding hex_digit
hex_decode [] = some []
hex_decode (c ∷ []) = none
hex_decode (c ∷ d ∷ rest) = hex_pair (hex_digit c) (hex_digit d) (hex_decode rest)

abbrev pub hex_char : ℕ → ℕ
hex_char v = if leb 10 v then b'a' + (v - 10) else b'0' + v

-- hex.EncodeToString
unfoldable pub hex_encode : List ℕ → List ℕ
hex_encode [] = []
hex_encode (b ∷ rest) = hex_char (b / 16) ∷ hex_char (b % 16) ∷ hex_encode rest

sextet : ℕ → Option ℕ
sextet c =
    if leb b'A' c && leb c b'Z'
    then some (c - b'A')
    else if leb b'a' c && leb c b'z'
    then some (c - b'a' + 26)
    else if leb b'0' c && leb c b'9'
    then some (c - b'0' + 52)
    else if c == b'-'
    then some 62
    else if c == b'_'
    then some 63
    else none

abbrev sextets : List ℕ → Option (List ℕ)
sextets [] = some []
sextets (c ∷ rest) =
    let decoded = sextets rest in
    if c == 10 || c == 13
    then decoded
    else Option.bind (sextet c) (λ v. Option.map (λ vs. v ∷ vs) decoded)

-- Four sextets are three bytes; in the last, shorter group the unused bits must be zero.
abbrev groups : List ℕ → Option (List ℕ)
groups [] = some []
groups (a ∷ []) = none
groups (a ∷ b ∷ []) = if b % 16 == 0 then some ((a * 4 + b / 16) ∷ []) else none
groups (a ∷ b ∷ c ∷ []) =
    if c % 4 == 0 then some ((a * 4 + b / 16) ∷ (b % 16 * 16 + c / 4) ∷ []) else none
groups (a ∷ b ∷ c ∷ d ∷ rest) =
    Option.map (λ bytes. (a * 4 + b / 16) ∷ (b % 16 * 16 + c / 4) ∷ (c % 4 * 64 + d) ∷ bytes)
      (groups rest)

-- base64.RawURLEncoding.Strict().DecodeString: line breaks are skipped.
unfoldable pub base64_decode : List ℕ → Option (List ℕ)
unfolding sextet
base64_decode text = Option.bind (sextets text) groups

abbrev base64_char : ℕ → ℕ
base64_char v =
    if leb v 25
    then b'A' + v
    else if leb v 51
    then b'a' + (v - 26)
    else if leb v 61
    then b'0' + (v - 52)
    else if v == 62
    then b'-'
    else b'_'

-- base64.RawURLEncoding.EncodeToString
unfoldable pub base64_encode : List ℕ → List ℕ
base64_encode [] = []
base64_encode (x ∷ []) = base64_char (x / 4) ∷ base64_char (x % 4 * 16) ∷ []
base64_encode (x ∷ y ∷ []) =
    base64_char (x / 4) ∷ base64_char (x % 4 * 16 + y / 16) ∷ base64_char (y % 16 * 4) ∷ []
base64_encode (x ∷ y ∷ z ∷ rest) =
    base64_char (x / 4)
    ∷ base64_char (x % 4 * 16 + y / 16)
    ∷ base64_char (y % 16 * 4 + z / 64)
    ∷ base64_char (z % 64)
    ∷ base64_encode rest
