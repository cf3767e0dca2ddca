-- ===== src/Candidates/Offers.antt =====
-- internal/transport/dilation.go: how a public target was offered, and its place in the race.
use wormzy.Prelude.{
  ℕ, ◌≤◌, if◌then◌else◌, Nat_eq, String, true, false, ◌==◌, Text_eq, eq_iff, some, List, [], ◌∷◌,
  All, ◌≡◌, ◌⊎◌, refl, inl, inr, ap, ◌∙◌, arith, Bool-cases,
}
use wormzy.Prelude.Int.{pos}
use wormzy.Session.{Candidate}
use wormzy.Candidates.{Ip4, Texts}
use wormzy.Candidates.Normal.{accept_target}
use wormzy.Candidates.Select.{candidate_race_weight, races_before}
use wormzy.Candidates.Distinct.{ltb_ℤ_asym}

-- The place of a kind in the race: what UPnP has mapped, then what STUN has seen, then the rest.
abbrev pub place_of : String → ℕ
place_of kind = if kind == "upnp" then 0 else if kind == "reflexive" then 1 else 2

-- Every target comes no later than those after it.
abbrev pub InPlace : List Candidate → Type 0
InPlace [] = Unit
InPlace (c ∷ cs) = All (λ d. place_of c.kind ≤ place_of d.kind) cs × InPlace cs

module _ ⦃T : Texts⦄ where
  -- How a target was offered, with the priority that it is given.
  pub data Offer (c : Candidate) : Type 0 where
    upnp : c.kind ≡ "upnp" → c.priority ≡ pos 110 → Offer c
    reflexive : c.kind ≡ "reflexive" → c.priority ≡ pos 100 → Offer c
    legacy : c.kind ≡ "legacy-public" → c.priority ≡ pos 10 → Offer c

  pub accept_target-Offer :
      (typ : String) (ip : Ip4) (addr : String) (c : Candidate)
      → accept_target typ ip addr false false ≡ some c
      → Offer c
  unfolding accept_target
  accept_target-Offer typ ip addr c h = elim (Bool-cases (typ == "reflexive")) [
    | inl is ↦ reflexive (ground (arith, h, is, eq_iff typ "reflexive")) (ground (arith, h, is))
    | inr other ↦ elim (Bool-cases (typ == "upnp")) [
      | inl is ↦
          upnp (ground (arith, h, is, other, eq_iff typ "upnp")) (ground (arith, h, is, other))
      | inr third ↦
          legacy (ground (arith, h, other, third, eq_iff typ "legacy-public"))
            (ground (arith, h, other, third))
    ]
  ]

  pub races_before-asym :
      (c d : Candidate) → races_before false c d ≡ true → races_before false d c ≡ false
  unfolding races_before
  races_before-asym c d h =
      let x = candidate_race_weight false c in
      let y = candidate_race_weight false d in
      ground (
        arith,
        h,
        ltb_ℤ_asym x y,
        ltb_ℤ_asym y x,
        ltb_ℤ_asym c.priority d.priority,
        ltb_ℤ_asym d.priority c.priority,
      )

  -- The weight of a target in the race, by its kind.
  weight-Offer :
      (c : Candidate)
      → Offer c
      → ((candidate_race_weight false c ≡ pos 1060) × (place_of c.kind ≡ 0))
        ⊎ (((candidate_race_weight false c ≡ pos 1000) × (place_of c.kind ≡ 1))
            ⊎ ((candidate_race_weight false c ≡ pos 10) × (place_of c.kind ≡ 2)))
  unfolding candidate_race_weight
  weight-Offer c (upnp k p) =
      let low : T.lower c.kind ≡ "upnp" = ap T.lower k ∙ T.lower_upnp in
      inl (rw (low, p) refl, rw k refl)
  weight-Offer c (reflexive k p) =
      let low : T.lower c.kind ≡ "reflexive" = ap T.lower k ∙ T.lower_reflexive in
      inr (inl (rw (low, p) refl, rw k refl))
  weight-Offer c (legacy k p) =
      let low : T.lower c.kind ≡ "legacy-public" = ap T.lower k ∙ T.lower_legacy in
      inr (inr (rw (low, p) refl, rw k refl))

  -- A target that does not race before another has no earlier place.
  pub place_of-le :
      (c d : Candidate)
      → Offer c
      → Offer d
      → races_before false d c ≡ false
      → place_of c.kind ≤ place_of d.kind
  unfolding races_before
  place_of-le c d o p h = elim (weight-Offer c o) [
    | inl (w, k) ↦ omega (arith, k)
    | inr (inl (w, k)) ↦ elim (weight-Offer d p) [
      | inl (x, l) ↦ absurd (ground (arith, h, w, x))
      | inr (inl (x, l)) ↦ omega (arith, k, l)
      | inr (inr (x, l)) ↦ omega (arith, k, l)
    ]
    | inr (inr (w, k)) ↦ elim (weight-Offer d p) [
      | inl (x, l) ↦ absurd (ground (arith, h, w, x))
      | inr (inl (x, l)) ↦ absurd (ground (arith, h, w, x))
      | inr (inr (x, l)) ↦ omega (arith, k, l)
    ]
  ]
