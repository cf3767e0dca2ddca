-- ===== src/Signaling/Order.antt =====
-- internal/transport/authenticated_signaling.go, selfSnapshotDigest: the order of the candidates is
-- total, and the digest does not depend on the order in which a peer lists its metadata.
use wormzy.Prelude.{
  String, Bool, ◌&&◌, Text_eq, List, length, every, ◌≡◌, refl, ap, ◌∙◌, arith, suc,
}
use mathlib.Core.List.{Permᴰ}
use wormzy.Prelude.Sort.{TotalOrder, by_key, by_key_asym, by_key_trans, by_key_antisym}
use wormzy.Prelude.Texts.{text_less, text_less-TotalOrder, ltb_ℤ-TotalOrder}
use wormzy.Prelude.Int.{ltb_ℤ}
use wormzy.Session.{Candidate}
use wormzy.Signaling.{candidate_less}

abbrev kind_of : Candidate → String
kind_of c = c.kind

abbrev proto_of : Candidate → String
proto_of c = c.proto

abbrev addr_of : Candidate → String
addr_of c = c.addr

abbrev by_priority : Candidate → Candidate → Bool
by_priority c d = ltb_ℤ c.priority d.priority

abbrev by_addr : Candidate → Candidate → Bool
by_addr = by_key addr_of text_less by_priority

abbrev by_proto : Candidate → Candidate → Bool
by_proto = by_key proto_of text_less by_addr

pub candidate_less-TotalOrder : TotalOrder candidate_less
unfolding candidate_less
candidate_less-TotalOrder =
    let o = text_less-TotalOrder in
    record {
      asym = by_key_asym kind_of text_less by_proto o (
          by_key_asym proto_of text_less by_addr o (
            by_key_asym addr_of text_less by_priority o
              (λ c d. ltb_ℤ-TotalOrder.asym c.priority d.priority)));
      trans = by_key_trans kind_of text_less by_proto o (
          by_key_trans proto_of text_less by_addr o (
            by_key_trans addr_of text_less by_priority o
              (λ c d e. ltb_ℤ-TotalOrder.trans c.priority d.priority e.priority)));
      antisym = λ c d h k.
          let (kind, (h1, k1)) = by_key_antisym kind_of text_less by_proto o c d h k in
          let (proto, (h2, k2)) = by_key_antisym proto_of text_less by_addr o c d h1 k1 in
          let (addr, (h3, k3)) = by_key_antisym addr_of text_less by_priority o c d h2 k2 in
          let priority = ltb_ℤ-TotalOrder.antisym c.priority d.priority h3 k3 in
          λ i. record { kind = kind i; proto = proto i; addr = addr i; priority = priority i };
    }

-- A test on every entry, and the length, do not depend on the order.
module _ {ℓ} {A : Type ℓ} where
  pub every-Permᴰ : (p : A → Bool) {xs ys : List A} → Permᴰ xs ys → every p xs ≡ every p ys
  every-Permᴰ p Permᴰ.nil = refl
  every-Permᴰ p (Permᴰ.cons {b = b} {l₁ = l} e perm) =
      ap (λ x. p x && every p l) e ∙ ap (λ rest. p b && rest) (every-Permᴰ p perm)
  every-Permᴰ p (Permᴰ.swap {a = a} {b = b} {l = l} e f) = rw (← e, ← f) (ground arith)
  every-Permᴰ p (Permᴰ.trans one two) = every-Permᴰ p one ∙ every-Permᴰ p two

  pub length-Permᴰ : {xs ys : List A} → Permᴰ xs ys → length xs ≡ length ys
  length-Permᴰ Permᴰ.nil = refl
  length-Permᴰ (Permᴰ.cons e perm) = ap suc (length-Permᴰ perm)
  length-Permᴰ (Permᴰ.swap e f) = refl
  length-Permᴰ (Permᴰ.trans one two) = length-Permᴰ one ∙ length-Permᴰ two
