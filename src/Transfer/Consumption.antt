-- ===== src/Transfer/Consumption.antt =====
-- internal/transport/transport.go: what a frame that is read takes from the stream.
use wormzy.Prelude.{
  ℕ, ◌+◌, ◌%◌, ◌^◌, ◌<◌, zero, suc, some, List, [], ◌∷◌, ◌++◌, length, ◌≡◌, ap, ◌∙◌, arith, inl,
  inr, Option-cases,
}
use wormzy.Prelude.Fallible.{ok, Fallible-cases}
use wormzy.Completion.{take_full}
use wormzy.Transfer.{Primitives}
use wormzy.Transfer.Nonce.{make_nonce}
use wormzy.Transfer.Frames.{Stream, AeadReader, read_full, read_chunk, be_value}

take_full-size :
    (n : ℕ) (bytes got left : List ℕ)
    → take_full n bytes ≡ some (got, left)
    → length bytes ≡ n + length left
unfolding take_full
take_full-size zero bytes got left h = ground arith
take_full-size (suc n) [] got left h = absurd (ground arith)
take_full-size (suc n) (b ∷ bytes) got left h = elim (Option-cases (take_full n bytes)) [
  | inl short ↦ absurd (ground (arith, short, h))
  | inr ((g, l), full) ↦ ground (arith, full, h, take_full-size n bytes g l full)
]

take_full-splits :
    (n : ℕ) (bytes got left : List ℕ)
    → take_full n bytes ≡ some (got, left)
    → (bytes ≡ got ++ left) × (length got ≡ n)
unfolding take_full
take_full-splits zero bytes got left h = ground (arith, h)
take_full-splits (suc n) [] got left h = absurd (ground (arith, h))
take_full-splits (suc n) (b ∷ bytes) got left h = elim (Option-cases (take_full n bytes)) [
  | inl short ↦ absurd (ground (arith, short, h))
  | inr ((g, l), full) ↦ ground (arith, full, h, take_full-splits n bytes g l full)
]

pub read_full-splits :
    (n : ℕ) (s t : Stream) (got : List ℕ)
    → read_full n s ≡ ok (got, t)
    → (s.pending ≡ got ++ t.pending) × (length got ≡ n)
unfolding read_full
read_full-splits n s t got h = elim (Option-cases (take_full n s.pending)) [
  | inl short ↦ absurd (ground (arith, short, h))
  | inr ((g, l), full) ↦ ground (arith, full, h, take_full-splits n s.pending g l full)
]

read_full-size :
    (n : ℕ) (s t : Stream) (got : List ℕ)
    → read_full n s ≡ ok (got, t)
    → length s.pending ≡ n + length t.pending
unfolding read_full
read_full-size n s t got h = elim (Option-cases (take_full n s.pending)) [
  | inl short ↦ absurd (ground (arith, short, h))
  | inr ((g, l), full) ↦ ground (arith, full, h, take_full-size n s.pending g l full)
]

-- A frame that was read: what authenticates it, and what it took.
module _ ⦃P : Primitives⦄ where
  -- Bytes that begin with the frame of a counter: a size of four bytes and so many bytes, which the
  -- key unseals under the nonce of that counter.
  pub record Begins (key base : List ℕ) (ctr : ℕ) (bytes plain rest : List ℕ) : Type 0 where
    pub size : List ℕ
    pub sealed : List ℕ
    pub on_wire : bytes ≡ size ++ (sealed ++ rest)
    pub size_length : length size ≡ 4
    pub size_value : be_value size 0 ≡ length sealed
    pub opens : P.unseal key (make_nonce base ctr) sealed ≡ some plain

  pub record TakesFrame (r : AeadReader) (plain : List ℕ) (next : AeadReader) : Type 0 where
    pub begins : Begins r.key r.base_nonce r.ctr r.input.pending plain next.input.pending
    pub key : next.key ≡ r.key
    pub base : next.base_nonce ≡ r.base_nonce
    pub ctr : next.ctr ≡ (r.ctr + 1) % 2 ^ 64
    pub shorter : length next.input.pending < length r.input.pending

  pub read_chunk-TakesFrame :
      (r next : AeadReader) (plain : List ℕ)
      → read_chunk r ≡ ok (plain, next)
      → TakesFrame r plain next
  unfolding read_chunk
  read_chunk-TakesFrame r next plain h = elim (Fallible-cases (read_full 4 r.input)) [
    | inr (e, short) ↦ absurd (ground (arith, short, h))
    | inl ((size, s), head) ↦ elim (Fallible-cases (read_full (be_value size 0) s)) [
      | inr (e, short) ↦ absurd (ground (arith, head, short, h))
      | inl ((ct, left), body) ↦
          elim (Option-cases (P.unseal r.key (make_nonce r.base_nonce r.ctr) ct)) [
            | inl bad ↦ absurd (ground (arith, head, body, bad, h))
            | inr (pt, good) ↦
                let (front, four) = read_full-splits 4 r.input s size head in
                let (back, full) = read_full-splits (be_value size 0) s left ct body in
                let rest : left.pending ≡ next.input.pending =
                  ground (arith, head, body, good, h) in
                record {
                  begins = record {
                    size = size;
                    sealed = ct;
                    on_wire = front ∙ ap (λ b. size ++ b) (back ∙ ap (λ b. ct ++ b) rest);
                    size_length = four;
                    size_value = omega (arith, full);
                    opens = ground (arith, head, body, good, h);
                  };
                  key = ground (arith, head, body, good, h);
                  base = ground (arith, head, body, good, h);
                  ctr = ground (arith, head, body, good, h);
                  shorter = ground (
                    arith,
                    head,
                    body,
                    good,
                    h,
                    read_full-size 4 r.input s size head,
                    read_full-size (be_value size 0) s left ct body,
                  );
                }
          ]
    ]
  ]
