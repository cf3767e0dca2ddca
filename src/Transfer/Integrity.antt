-- ===== src/Transfer/Integrity.antt =====
-- internal/transport/transport.go, receiveFile: the frames of the stream that a download was read
-- from.
use wormzy.Prelude.{
  ℕ, zero, suc, List_eq, Nat_eq, list_eq_iff, ltb, some, List, [], ◌∷◌, ◌++◌, length, take, drop,
  ◌≡◌, refl, sym, ◌∙◌, subst, arith, inl, inr, Option-cases, Bool-cases,
}
use mathlib.Core.List.{append_assoc, append-nil}
use wormzy.Prelude.Fallible.{ok, Fallible-cases}
use wormzy.Transfer.{Primitives, meta_prefix, chunk_size, file_header_name_len_size}
use wormzy.Transfer.Frames.{Stream, AeadReader, read_full, read_chunk}
use wormzy.Transfer.Receive.{
  ReceiveCalls, receive_chunks, receive_body, open_transfer, parse_header, le_value,
  verify_metadata, check_metadata,
}
use wormzy.Transfer.Consumption.{TakesFrame, read_chunk-TakesFrame, read_full-splits}
use wormzy.Transfer.Carriage.{
  Frames, Follows, Follows-append, Follows-Frames, joined, Vouches, Carries,
}

module _ ⦃P : Primitives⦄ where
  -- The trailer that a verification has read.
  record HasTrailer (r : AeadReader) (content : List ℕ) : Type 0 where
    trailer : List ℕ
    after : AeadReader
    takes : TakesFrame r trailer after
    vouches : Vouches trailer content

  verify_metadata-eq-ok :
      (r : AeadReader) (content : List ℕ) (chunk : ℕ)
      → verify_metadata r (P.hash content) (length content) chunk ≡ ok tt
      → HasTrailer r content
  unfolding verify_metadata check_metadata
  verify_metadata-eq-ok r content chunk h = elim (Fallible-cases (read_chunk r)) [
    | inr (e, failing) ↦ absurd (ground (arith, h, failing))
    | inl ((plain, next), got) ↦ elim (Option-cases (P.decode (drop (length meta_prefix) plain))) [
      | inl bad ↦ absurd (ground (arith, h, got, bad))
      | inr (meta, good) ↦
          let prefix = list_eq_iff (take (length meta_prefix) plain) meta_prefix in
          record {
            trailer = plain;
            after = next;
            takes = read_chunk-TakesFrame r next plain got;
            vouches = record {
              meta = meta;
              prefix = ground (arith, h, got, good, prefix);
              decodes = good;
              meta_digest = ground (arith, h, got, good, list_eq_iff (P.hash content) meta.digest);
              meta_size = ground (arith, h, got, good);
            };
          }
    ]
  ]

  -- The chunks that the loop has read.
  record HasChunks (r next : AeadReader) (written all : List ℕ) : Type 0 where
    chunks : List (List ℕ)
    follows : Follows r chunks next
    contents : all ≡ written ++ joined chunks

  appended :
      (chunk written all : List ℕ) (chunks : List (List ℕ))
      → all ≡ (written ++ chunk) ++ joined chunks
      → all ≡ written ++ joined (chunk ∷ chunks)
  appended chunk written all chunks e = e ∙ append_assoc written chunk (joined chunks)

  receive_chunks-HasChunks :
      (fuel : ℕ) (c : ReceiveCalls) (size : ℕ) (r next : AeadReader) (written all : List ℕ)
      → receive_chunks fuel c size r written ≡ ok (all, next)
      → HasChunks r next written all
  unfolding receive_chunks
  receive_chunks-HasChunks zero c size r next written all h = absurd (ground (arith, h))
  receive_chunks-HasChunks (suc fuel) c size r next written all h =
      let stops : written ≡ all → r ≡ next → HasChunks r next written all = λ same e. record {
        chunks = [];
        follows = e;
        contents = sym same ∙ sym (append-nil written);
      } in
      elim (Bool-cases (ltb (length written) size)) [
        | inr full ↦ stops (ground (arith, h, full)) (ground (arith, h, full))
        | inl more ↦ elim (Fallible-cases (read_chunk r)) [
          | inr (e, failing) ↦
              stops (ground (arith, h, failing, more)) (ground (arith, h, failing, more))
          | inl ((chunk, later), got) ↦
              let rest : receive_chunks fuel c size later (written ++ chunk) ≡ ok (all, next) =
                ground (arith, h, got, more) in
              let b = receive_chunks-HasChunks fuel c size later next (written ++ chunk) all rest in
              record {
                chunks = chunk ∷ b.chunks;
                follows = (later, (read_chunk-TakesFrame r later chunk got, b.follows));
                contents = appended chunk written all b.chunks b.contents;
              }
        ]
      ]

  -- What a transfer that was opened has read: the base nonce and the header.
  pub record HasOpened (key : List ℕ) (c : ReceiveCalls) (size : ℕ) (r : AeadReader) : Type 0 where
    pub stream : Stream
    pub start : AeadReader
    pub header : List ℕ
    pub is_stream : c.stream ≡ some stream
    pub on_wire : stream.pending ≡ start.base_nonce ++ start.input.pending
    pub base_length : length start.base_nonce ≡ 24
    pub same_key : start.key ≡ key
    pub fresh : start.ctr ≡ 0
    pub takes : TakesFrame start header r
    pub header_size : le_value (take 8 (drop file_header_name_len_size header)) ≡ size

  pub open_transfer-HasOpened :
      (key raw : List ℕ) (c : ReceiveCalls) (size : ℕ) (r : AeadReader)
      → open_transfer key c ≡ ok (raw, (size, r))
      → HasOpened key c size r
  unfolding open_transfer parse_header
  open_transfer-HasOpened key raw c size r h = elim (Option-cases c.stream) [
    | inl closed ↦ absurd (ground (arith, h, closed))
    | inr (s, has) ↦ elim (Fallible-cases (read_full 24 s)) [
      | inr (x, short) ↦ absurd (ground (arith, h, has, short))
      | inl ((base, input), full) ↦
          let start : AeadReader = record {
            key = key;
            base_nonce = base;
            ctr = 0;
            input = input;
          } in
          let (wire, long) = read_full-splits 24 s input base full in
          elim (Fallible-cases (read_chunk start)) [
            | inr (x, failing) ↦ absurd (ground (arith, h, has, full, failing))
            | inl ((hdr, next), got) ↦
                let same : next ≡ r = ground (arith, h, has, full, got) in
                record {
                  stream = s;
                  start = start;
                  header = hdr;
                  is_stream = has;
                  on_wire = wire;
                  base_length = long;
                  same_key = refl;
                  fresh = refl;
                  takes =
                      subst (λ x. TakesFrame start hdr x) same
                        (read_chunk-TakesFrame start next hdr got);
                  header_size = ground (arith, h, has, full, got);
                }
          ]
    ]
  ]

  -- A download that has finished has read all of this, and its size and digest are right.
  pub receive_body-eq-ok :
      (key : List ℕ) (c : ReceiveCalls) (size : ℕ) (r : AeadReader) (content sum : List ℕ)
      → (opened : HasOpened key c size r) → receive_body c size r ≡ ok (content, sum)
      → (length content ≡ size)
        × ((sum ≡ P.hash content) × Carries key opened.stream.pending content)
  unfolding receive_body
  receive_body-eq-ok key c size r content sum opened h =
      let fuel = suc (length r.input.pending) in
      elim (Fallible-cases (receive_chunks fuel c size r [])) [
        | inr (e, failing) ↦ absurd (ground (arith, h, failing))
        | inl ((written, next), got) ↦
            let same : written ≡ content = ground (arith, h, got) in
            let exact : length content ≡ size = ground (arith, h, got) in
            let digest : sum ≡ P.hash content = ground (arith, h, got) in
            let checked : verify_metadata next (P.hash content) (length content) chunk_size
                ≡ ok tt =
              ground (arith, h, got) in
            let read = receive_chunks-HasChunks fuel c size r next [] written got in
            let end = verify_metadata-eq-ok next content chunk_size checked in
            let start = opened.start in
            let frames = opened.header ∷ (read.chunks ++ end.trailer ∷ []) in
            let all : Follows start frames end.after = (
              r,
              (
                opened.takes,
                Follows-append r next end.after read.chunks (end.trailer ∷ []) read.follows
                    (end.after, (end.takes, refl)),
              ),
            ) in
            let left = end.after.input.pending in
            (
              exact,
              (
                digest,
                record {
                  base = start.base_nonce;
                  frames = start.input.pending;
                  header = opened.header;
                  chunks = read.chunks;
                  trailer = end.trailer;
                  rest = left;
                  on_wire = opened.on_wire;
                  base_length = opened.base_length;
                  in_order =
                      subst (λ k. Frames k start.base_nonce 0 start.input.pending frames left)
                        opened.same_key
                        (subst
                          (λ n. Frames start.key start.base_nonce n start.input.pending frames left)
                          opened.fresh (Follows-Frames start end.after frames all));
                  header_size = opened.header_size ∙ sym exact;
                  contents = sym read.contents ∙ same;
                  vouches = end.vouches;
                },
              ),
            )
      ]
