-- ===== src/Transfer/Carriage.antt =====
-- internal/transport/transport.go: the frames of a stream that carries a file, as a receiver takes
-- them.
use wormzy.Prelude.{
  ℕ, ◌+◌, ◌%◌, ◌^◌, List_eq, Nat_eq, some, List, [], ◌∷◌, ◌++◌, length, take, drop, ◌≡◌, sym, ap,
  subst,
}
use wormzy.Transfer.{Primitives, FileMetadata, meta_prefix, file_header_name_len_size}
use wormzy.Transfer.Frames.{AeadReader}
use wormzy.Transfer.Receive.{le_value}
use wormzy.Transfer.Consumption.{Begins, TakesFrame}

module _ ⦃P : Primitives⦄ where
  -- Bytes that begin with these frames in this order, from a counter on, and what follows them.
  abbrev pub Frames : List ℕ → List ℕ → ℕ → List ℕ → List (List ℕ) → List ℕ → Type 0
  Frames key base ctr bytes [] rest = bytes ≡ rest
  Frames key base ctr bytes (p ∷ ps) rest =
      (between : List ℕ) × (Begins key base ctr bytes p between
        × Frames key base ((ctr + 1) % 2 ^ 64) between ps rest)

  -- A reader that has taken these frames.
  abbrev pub Follows : AeadReader → List (List ℕ) → AeadReader → Type 0
  Follows r [] next = r ≡ next
  Follows r (p ∷ ps) next =
      (between : AeadReader) × (TakesFrame r p between × Follows between ps next)

  pub Follows-append :
      (r s t : AeadReader) (ps qs : List (List ℕ))
      → Follows r ps s
      → Follows s qs t
      → Follows r (ps ++ qs) t
  Follows-append r s t [] qs h k = subst (λ x. Follows x qs t) (sym h) k
  Follows-append r s t (p ∷ ps) qs (m, (takes, h)) k = (m, (takes, Follows-append m s t ps qs h k))

  pub Follows-Frames :
      (r next : AeadReader) (ps : List (List ℕ))
      → Follows r ps next
      → Frames r.key r.base_nonce r.ctr r.input.pending ps next.input.pending
  Follows-Frames r next [] h = ap (λ (x : AeadReader). x.input.pending) h
  Follows-Frames r next (p ∷ ps) (m, (takes, h)) = (
    m.input.pending,
    (
      takes.begins,
      subst
          (λ k. Frames k r.base_nonce ((r.ctr + 1) % 2 ^ 64) m.input.pending ps next.input.pending)
          takes.key
          (subst (λ b. Frames m.key b ((r.ctr + 1) % 2 ^ 64) m.input.pending ps next.input.pending)
            takes.base
            (subst (λ n. Frames m.key m.base_nonce n m.input.pending ps next.input.pending)
              takes.ctr (Follows-Frames m next ps h))),
    ),
  )

  abbrev pub joined : List (List ℕ) → List ℕ
  joined [] = []
  joined (p ∷ ps) = p ++ joined ps

  -- What a trailer says of the contents.
  pub record Vouches (trailer content : List ℕ) : Type 0 where
    pub meta : FileMetadata
    pub prefix : take (length meta_prefix) trailer ≡ meta_prefix
    pub decodes : P.decode (drop (length meta_prefix) trailer) ≡ some meta
    pub meta_digest : meta.digest ≡ P.hash content
    pub meta_size : meta.size ≡ length content

  -- A stream that carries these contents: a base nonce of 24 bytes, and then, in the order of the
  -- counter from 0 on, the frames of a header that names their size, of the chunks that they are
  -- made of, and of a trailer that vouches for them.
  pub record Carries (key stream content : List ℕ) : Type 0 where
    pub base : List ℕ
    pub frames : List ℕ
    pub header : List ℕ
    pub chunks : List (List ℕ)
    pub trailer : List ℕ
    pub rest : List ℕ
    pub on_wire : stream ≡ base ++ frames
    pub base_length : length base ≡ 24
    pub in_order : Frames key base 0 frames (header ∷ (chunks ++ trailer ∷ [])) rest
    pub header_size : le_value (take 8 (drop file_header_name_len_size header)) ≡ length content
    pub contents : joined chunks ≡ content
    pub vouches : Vouches trailer content
