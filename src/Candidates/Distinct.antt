-- ===== src/Candidates/Distinct.antt =====
-- internal/transport/dilation.go, selectPeerCandidates: no target is dialed twice.
use wormzy.Prelude.{
  Bool, true, false, ◌||◌, Text_eq, eq_iff, List, [], ◌∷◌, ◌++◌, ◌≡◌, inl, inr, refl, arith,
  Bool-cases,
}
use wormzy.Prelude.Int.{ℤ, pos, negsuc, ltb_ℤ}
use wormzy.Prelude.Sort.{sorted, place}
use wormzy.Session.{Candidate}
use wormzy.Candidates.Select.{same_target, is_seen}

pub ltb_ℤ_asym : (x y : ℤ) → ltb_ℤ x y ≡ true → ltb_ℤ y x ≡ false
ltb_ℤ_asym (pos a) (pos b) h = ground (arith, h)
ltb_ℤ_asym (pos a) (negsuc b) h = ground (arith, h)
ltb_ℤ_asym (negsuc a) (pos b) h = refl
ltb_ℤ_asym (negsuc a) (negsuc b) h = ground (arith, h)

-- No target stands twice.
abbrev pub AreDistinct : List Candidate → Type 0
AreDistinct [] = Unit
AreDistinct (c ∷ cs) = (is_seen c cs ≡ false) × AreDistinct cs

is_seen-append :
    (c d : Candidate) (cs : List Candidate)
    → is_seen c (cs ++ d ∷ []) ≡ (is_seen c cs || same_target c d)
is_seen-append c d [] = ground arith
is_seen-append c d (e ∷ cs) = ground (arith, is_seen-append c d cs)

pub AreDistinct-append :
    (c : Candidate) (cs : List Candidate)
    → is_seen c cs ≡ false
    → AreDistinct cs
    → AreDistinct (cs ++ c ∷ [])
AreDistinct-append c [] new h = (refl, tt)
AreDistinct-append c (d ∷ cs) new h = (
  ground (
    arith,
    new,
    h.0,
    is_seen-append d c cs,
    eq_iff c.proto d.proto,
    eq_iff d.proto c.proto,
    eq_iff c.addr d.addr,
    eq_iff d.addr c.addr,
  ),
  AreDistinct-append c cs (ground (arith, new)) h.1,
)

module _ (less : Candidate → Candidate → Bool) where
  is_seen-place :
      (c d : Candidate) (cs : List Candidate) → is_seen c (place less d cs) ≡ is_seen c (d ∷ cs)
  unfolding place
  is_seen-place c d [] = refl
  is_seen-place c d (e ∷ cs) = ground (arith, is_seen-place c d cs)

  AreDistinct-place :
      (c : Candidate) (cs : List Candidate)
      → is_seen c cs ≡ false
      → AreDistinct cs
      → AreDistinct (place less c cs)
  unfolding place
  AreDistinct-place c [] new h = (refl, tt)
  AreDistinct-place c (d ∷ cs) new h = elim (Bool-cases (less d c)) [
    | inl before ↦ rw before (
      ground (
        arith,
        new,
        h.0,
        is_seen-place d c cs,
        eq_iff c.proto d.proto,
        eq_iff d.proto c.proto,
        eq_iff c.addr d.addr,
        eq_iff d.addr c.addr,
      ),
      AreDistinct-place c cs (ground (arith, new)) h.1,
    )
    | inr after ↦ rw after (new, h)
  ]

  is_seen-sorted : (c : Candidate) (cs : List Candidate) → is_seen c (sorted less cs) ≡ is_seen c cs
  unfolding sorted
  is_seen-sorted c [] = refl
  is_seen-sorted c (d ∷ cs) =
      ground (arith, is_seen-place c d (sorted less cs), is_seen-sorted c cs)

  pub AreDistinct-sorted : (cs : List Candidate) → AreDistinct cs → AreDistinct (sorted less cs)
  unfolding sorted
  AreDistinct-sorted [] h = tt
  AreDistinct-sorted (c ∷ cs) h =
      AreDistinct-place c (sorted less cs) (ground (arith, is_seen-sorted c cs, h.0))
        (AreDistinct-sorted cs h.1)
