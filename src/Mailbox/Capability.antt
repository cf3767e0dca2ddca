-- ===== src/Mailbox/Capability.antt =====
-- internal/transport/mailbox_capability.go: the verifiers of bearer capabilities.
use Prim.Native.Char.{code}
use text.Mathlib.TextEquality.{Char-path}
use wormzy.Prelude.{
  ℕ, String, len, Bool, true, false, ◌&&◌, ◌==◌, Nat_eq, List_eq, Option, none, some, length, codes,
  List, [], ◌∷◌, ◌≡◌, ◌↔◌, arith, list_eq_iff, refl, zero, suc, ap, inl, inr, Option-cases,
}
use wormzy.Encoding.{base64_decode, base64_encode}
use wormzy.Mailbox.SessionId.{canonical}

abbrev pub mailbox_capability_size : ℕ
mailbox_capability_size = 32

abbrev pub mailbox_capability_encoded_size : ℕ
mailbox_capability_encoded_size = 43

-- validateMailboxCapabilityVerifier(verifier) == nil
unfoldable pub valid_verifier : String → Bool
valid_verifier verifier =
    len verifier == mailbox_capability_encoded_size
    && canonical mailbox_capability_size (codes verifier)

-- copy(fixed[:], raw) into an array of zeros
fixed : ℕ → List ℕ → List ℕ
fixed zero raw = []
fixed (suc n) [] = 0 ∷ fixed n []
fixed (suc n) (x ∷ raw) = x ∷ fixed n raw

-- The arrays are compared, and the comparison counts if both texts were canonical.
abbrev same_raw : Option (List ℕ) → Option (List ℕ) → List ℕ → List ℕ → Bool
same_raw (some left_raw) (some right_raw) left right =
    (length left_raw == mailbox_capability_size
      && (length right_raw == mailbox_capability_size
          && (base64_encode left_raw == left && base64_encode right_raw == right)))
    && fixed mailbox_capability_size left_raw == fixed mailbox_capability_size right_raw
same_raw _ _ left right = false

-- mailboxCapabilityVerifierEqual
unfoldable pub verifier_equal : String → String → Bool
unfolding fixed
verifier_equal left right =
    len left == mailbox_capability_encoded_size
    && (len right == mailbox_capability_encoded_size
        && same_raw (base64_decode (codes left)) (base64_decode (codes right)) (codes left)
            (codes right))

fixed_full : (n : ℕ) (raw : List ℕ) → length raw ≡ n → fixed n raw ≡ raw
unfolding fixed
fixed_full zero [] h = refl
fixed_full zero (x ∷ raw) h = absurd (omega arith)
fixed_full (suc n) [] h = absurd (omega arith)
fixed_full (suc n) (x ∷ raw) h = ap (λ r. x ∷ r) (fixed_full n raw (omega arith))

codes-injective : (s t : String) → codes s ≡ codes t → s ≡ t
codes-injective String.[] String.[] h = refl
codes-injective String.[] (String.◌∷◌ d t) h = cc
codes-injective (String.◌∷◌ c s) String.[] h = cc
codes-injective (String.◌∷◌ c s) (String.◌∷◌ d t) h =
    let heads : code c ≡ code d = cc in
    let tails : codes s ≡ codes t = cc in
    rw (Char-path c d heads) (ap (λ r. String.◌∷◌ d r) (codes-injective s t tails))

same_raw_sound :
    (l r : Option (List ℕ)) (left right : List ℕ) → same_raw l r left right ≡ true → left ≡ right
same_raw_sound (some l) (some r) left right h = ground (
  arith,
  fixed_full 32 l,
  fixed_full 32 r,
  list_eq_iff (base64_encode l) left,
  list_eq_iff (base64_encode r) right,
  list_eq_iff (fixed 32 l) (fixed 32 r),
)
same_raw_sound none r left right h = cc
same_raw_sound (some l) none left right h = cc

same_raw_self :
    (left : List ℕ)
    → canonical mailbox_capability_size left
      ≡ same_raw (base64_decode left) (base64_decode left) left left
same_raw_self left = elim (Option-cases (base64_decode left)) [
  | inl e ↦ ground (arith, e)
  | inr (raw, e) ↦ ground (arith, e, list_eq_iff (fixed 32 raw) (fixed 32 raw))
]

-- Two verifiers compare as equal exactly when they are the same text and it is a canonical
-- verifier.
pub verifier_equal_iff :
    (left right : String)
    → (verifier_equal left right ≡ true) ↔ ((left ≡ right) × (valid_verifier left ≡ true))
unfolding verifier_equal valid_verifier
verifier_equal_iff left right = (
  λ h.
      let same : left ≡ right = codes-injective left right (
        same_raw_sound (base64_decode (codes left)) (base64_decode (codes right)) _ _
          (ground arith)) in
      (same, ground (arith, same_raw_self (codes left), ap len same, ap codes same)),
  λ p. rw (← p.0) (ground (arith, same_raw_self (codes left), p.1)),
)

-- Only a canonical verifier equals one, so a comparison with itself tests its form.
pub verifier_equal_self : (v : String) → verifier_equal v v ≡ valid_verifier v
verifier_equal_self v = ground (arith, verifier_equal_iff v v)
