-- ===== src/Signaling/Metadata.antt =====
-- internal/transport/authenticated_signaling.go: the digest of a
-- snapshot does not depend on the order in which a peer lists its metadata.
use wormzy.Prelude.{
  ℕ, Bool, true, not, ◌&&◌, ◌||◌, Text_eq, Nat_eq, List_eq, List, [], ◌∷◌, every, ◌≡◌, ◌↔◌, refl,
  ap, arith, inl, inr,
}
use mathlib.Core.List.{Permᴰ}
use wormzy.Prelude.Int.{ltb_ℤ}
use wormzy.Prelude.Sort.{sorted-Permᴰ}
use wormzy.Prelude.Texts.{text_less, text_less-TotalOrder}
use wormzy.Prelude.Fallible.{ok, Fallible-cases}
use wormzy.Session.{Candidate, SelfInfo}
use wormzy.Encoding.{hex_encode}
use wormzy.Candidates.{
  Texts, validate_peer_candidate_metadata, check_candidates, safe_candidate_text,
  min_candidate_priority, max_candidate_priority,
}
use wormzy.Signaling.{Primitives, candidate_less, canonical, self_snapshot_digest, valid_feature}
use wormzy.Signaling.Order.{candidate_less-TotalOrder, every-Permᴰ, length-Permᴰ}

-- The same metadata, up to the order of the candidates and of the features.
pub record SameMetadata (i j : SelfInfo) : Type 0 where
  pub public_addr : i.public_addr ≡ j.public_addr
  pub local_addr : i.local_addr ≡ j.local_addr
  pub candidates : Permᴰ i.candidates j.candidates
  pub features : Permᴰ i.features j.features

canonical-SameMetadata : (i j : SelfInfo) → SameMetadata i j → canonical i ≡ canonical j
unfolding canonical
canonical-SameMetadata i j s =
    let cs = sorted-Permᴰ candidate_less candidate_less-TotalOrder s.candidates in
    let fs = sorted-Permᴰ text_less text_less-TotalOrder s.features in
    λ k. record {
      public_addr = s.public_addr k;
      local_addr = s.local_addr k;
      candidates = cs k;
      features = fs k;
    }

module _ ⦃T : Texts⦄ where
  abbrev passes : Candidate → Bool
  passes c =
      (safe_candidate_text c.kind && (safe_candidate_text c.proto && safe_candidate_text c.addr))
      && not (ltb_ℤ c.priority min_candidate_priority || ltb_ℤ max_candidate_priority c.priority)

  check_candidates_iff :
      (cs : List Candidate) → (check_candidates cs ≡ ok tt) ↔ (every passes cs ≡ true)
  unfolding check_candidates
  check_candidates_iff [] = (λ h. refl, λ h. refl)
  check_candidates_iff (c ∷ cs) = (
    λ h. ground (arith, h, check_candidates_iff cs),
    λ h. ground (arith, h, check_candidates_iff cs),
  )

  validate-SameMetadata :
      (i j : SelfInfo)
      → SameMetadata i j
      → validate_peer_candidate_metadata i ≡ ok tt
      → validate_peer_candidate_metadata j ≡ ok tt
  unfolding validate_peer_candidate_metadata
  validate-SameMetadata i j s h = ground (
    arith,
    h,
    s.public_addr,
    s.local_addr,
    length-Permᴰ s.candidates,
    check_candidates_iff i.candidates,
    check_candidates_iff j.candidates,
    every-Permᴰ passes s.candidates,
  )

  module _ ⦃P : Primitives⦄ where
    -- If the metadata of a snapshot has a digest, then the same metadata with its candidates and
    -- its features in another order has the same digest.
    pub self_snapshot_digest-SameMetadata :
        (i j : SelfInfo) (digest : List ℕ)
        → SameMetadata i j
        → self_snapshot_digest i ≡ ok digest
        → self_snapshot_digest j ≡ ok digest
    unfolding self_snapshot_digest
    self_snapshot_digest-SameMetadata i j digest s h =
        elim (Fallible-cases (validate_peer_candidate_metadata i)) [
          | inr (e, bad) ↦ absurd (ground (arith, h, bad))
          | inl (_, good) ↦ ground (
            arith,
            h,
            good,
            validate-SameMetadata i j s good,
            length-Permᴰ s.features,
            every-Permᴰ valid_feature s.features,
            ap (λ (c : SelfInfo). hex_encode (P.sha256 (P.marshal c)))
                (canonical-SameMetadata i j s),
          )
        ]
