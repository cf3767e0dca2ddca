-- ===== src/Transfer/Termination.antt =====
-- internal/transport/transport.go: the loop of receiveFile ends. Each turn takes at least one byte of
-- what the stream still delivers.
use wormzy.Prelude.{
  ℕ, ◌+◌, ◌<◌, zero, suc, Bool, true, false, Option, List, [], ◌++◌, length, drop, ◌≡◌, ◌≢◌, refl,
  arith, inl, inr, Option-cases,
}
use wormzy.Prelude.Fallible.{Fallible, ok, fail, ◌>>=◌, ◌>>◌, require, Fallible-cases}
use wormzy.Transfer.{TransferError, out_of_fuel, Primitives, FileMetadata, meta_prefix, chunk_size}
use wormzy.Transfer.Frames.{Stream, AeadReader, read_full, read_chunk, be_value, ended}
use wormzy.Transfer.Receive.{
  ReceiveCalls, receive_chunks, receive_body, receive_file, open_transfer, finish_download,
  verify_metadata, check_metadata, parse_header, default_name,
}
use wormzy.Transfer.Files.{
  Directory, Reserved, sanitize_filename, ensure_free_space, attempt_name, try_random, try_numbered,
  numbered, drawn_name, create_download_file,
}
use wormzy.Transfer.Consumption.{read_chunk-TakesFrame}

-- A result that the loop's bound has not made.
abbrev Ends {ℓ} : {A : Type ℓ} → Fallible TransferError A → Type ℓ
Ends m = m ≢ fail out_of_fuel

>>=-Ends {ℓ κ} :
    {A : Type ℓ} {B : Type κ} (m : Fallible TransferError A) (f : A → Fallible TransferError B)
    → Ends m
    → ((a : A) → m ≡ ok a → Ends (f a))
    → Ends (m >>= f)
>>=-Ends (ok a) f h k same = k a refl same
>>=-Ends (fail e) f h k same = h (ground (arith, same))

require-Ends {κ} :
    {B : Type κ} (passes : Bool) (e : TransferError) (rest : Fallible TransferError B)
    → e ≢ out_of_fuel
    → Ends rest
    → Ends (require passes e >> rest)
require-Ends true e rest h k same = k same
require-Ends false e rest h k same = h (ground (arith, same))

read_full-Ends : (n : ℕ) (s : Stream) → Ends (read_full n s)
unfolding read_full ended
read_full-Ends n s e = ground (arith, e)

ensure_free_space-Ends : (d : Directory) (needed : ℕ) → Ends (ensure_free_space d needed)
unfolding ensure_free_space
ensure_free_space-Ends d needed e = ground (arith, e)

module _ ⦃P : Primitives⦄ where
  read_chunk-Ends : (r : AeadReader) → Ends (read_chunk r)
  unfolding read_chunk
  read_chunk-Ends r e = elim (Fallible-cases (read_full 4 r.input)) [
    | inr (x, short) ↦ ground (arith, e, short, read_full-Ends 4 r.input)
    | inl ((size, s), head) ↦ ground (arith, e, head, read_full-Ends (be_value size 0) s)
  ]

  check_metadata-Ends :
      (m : FileMetadata) (digest : List ℕ) (size chunk : ℕ)
      → Ends (check_metadata m digest size chunk)
  unfolding check_metadata
  check_metadata-Ends m digest size chunk e = ground (arith, e)

  parse_header-Ends : (hdr : List ℕ) → Ends (parse_header hdr)
  unfolding parse_header
  parse_header-Ends hdr e = ground (arith, e)

  verify_metadata-Ends :
      (r : AeadReader) (digest : List ℕ) (size chunk : ℕ)
      → Ends (verify_metadata r digest size chunk)
  unfolding verify_metadata
  verify_metadata-Ends r digest size chunk e = elim (Fallible-cases (read_chunk r)) [
    | inr (x, failing) ↦ ground (arith, e, failing, read_chunk-Ends r)
    | inl ((frame, next), got) ↦ elim (Option-cases (P.decode (drop (length meta_prefix) frame))) [
      | inl bad ↦ ground (arith, e, got, bad)
      | inr (meta, good) ↦
          ground
            (arith, e, got, good, check_metadata-Ends meta digest size chunk, read_chunk-Ends next)
    ]
  ]

  receive_chunks-Ends :
      (fuel : ℕ) (c : ReceiveCalls) (size : ℕ) (r : AeadReader) (written : List ℕ)
      → length r.input.pending < fuel
      → Ends (receive_chunks fuel c size r written)
  unfolding receive_chunks
  receive_chunks-Ends zero c size r written h e = omega (arith, h)
  receive_chunks-Ends (suc fuel) c size r written h e = elim (Fallible-cases (read_chunk r)) [
    | inr (x, failing) ↦ ground (arith, e, failing, read_chunk-Ends r)
    | inl ((chunk, next), got) ↦ ground (
      arith,
      e,
      got,
      receive_chunks-Ends fuel c size next (written ++ chunk)
          (omega (arith, h, (read_chunk-TakesFrame r next chunk got).shorter)),
    )
  ]

  receive_body-Ends : (c : ReceiveCalls) (size : ℕ) (r : AeadReader) → Ends (receive_body c size r)
  unfolding receive_body
  receive_body-Ends c size r e =
      let fuel = suc (length r.input.pending) in
      let loop = receive_chunks-Ends fuel c size r [] (omega arith) in
      elim (Fallible-cases (receive_chunks fuel c size r [])) [
        | inr (x, failing) ↦ ground (arith, e, failing, loop)
        | inl ((written, next), got) ↦
            ground (arith, e, got, verify_metadata-Ends next (P.hash written) size chunk_size)
      ]

  open_transfer-Ends : (key : List ℕ) (c : ReceiveCalls) → Ends (open_transfer key c)
  unfolding open_transfer
  open_transfer-Ends key c e = elim (Option-cases c.stream) [
    | inl closed ↦ ground (arith, e, closed)
    | inr (s, has) ↦ elim (Fallible-cases (read_full 24 s)) [
      | inr (x, short) ↦ ground (arith, e, has, short, read_full-Ends 24 s)
      | inl ((base, input), full) ↦
          let r : AeadReader = record { key = key; base_nonce = base; ctr = 0; input = input } in
          elim (Fallible-cases (read_chunk r)) [
            | inr (x, failing) ↦ ground (arith, e, has, full, failing, read_chunk-Ends r)
            | inl ((hdr, next), got) ↦ ground (arith, e, has, full, got, parse_header-Ends hdr)
          ]
    ]
  ]

  attempt_name-Ends :
      (d : Directory) (name : List ℕ) (renamed : Bool) (later : Fallible TransferError Reserved)
      → Ends later
      → Ends (attempt_name d name renamed later)
  unfolding attempt_name
  attempt_name-Ends d name renamed later h e = ground (arith, h, e)

  module _ (d : Directory) (random : ℕ → Option (List ℕ)) where
    try_random-Ends : (stem ext : List ℕ) (left : ℕ) → Ends (try_random d stem ext random left)
    unfolding try_random
    try_random-Ends stem ext zero e = ground (arith, e)
    try_random-Ends stem ext (suc left) e = elim (Option-cases (random left)) [
      | inl broken ↦ ground (arith, broken, e)
      | inr (bytes, drew) ↦
          attempt_name-Ends d (drawn_name stem ext bytes) true (try_random d stem ext random left)
            (try_random-Ends stem ext left) (ground (arith, drew, e))
    ]

    try_numbered-Ends :
        (stem ext : List ℕ) (i left : ℕ) → Ends (try_numbered d stem ext random i left)
    unfolding try_numbered
    try_numbered-Ends stem ext i zero e = try_random-Ends stem ext 16 e
    try_numbered-Ends stem ext i (suc left) e =
        attempt_name-Ends d (numbered stem ext i) true (try_numbered d stem ext random (i + 1) left)
          (try_numbered-Ends stem ext (i + 1) left) e

    create_download_file-Ends : (name : List ℕ) → Ends (create_download_file d name random)
    unfolding create_download_file
    create_download_file-Ends name e =
        let ext = P.ext name in
        let stem = P.trim_suffix name ext in
        let later = try_numbered d stem ext random 1 99 in
        ground (arith, e, attempt_name-Ends d name false later (try_numbered-Ends stem ext 1 99))

  -- A receiver never stops because the bound on its loop is used up: whatever the stream delivers,
  -- the bound of one turn for each byte, and one more, is enough.
  pub receive_file-Ends :
      (key : List ℕ) (c : ReceiveCalls) → (receive_file key c).1 ≢ fail out_of_fuel
  unfolding receive_file finish_download
  receive_file-Ends key c e = elim (Fallible-cases (open_transfer key c)) [
    | inr (x, failing) ↦ ground (arith, e, failing, open_transfer-Ends key c)
    | inl ((raw, (size, reader)), begun) ↦
        let name = default_name (sanitize_filename raw) in
        ground (
          arith,
          e,
          begun,
          ensure_free_space-Ends c.dir size,
          create_download_file-Ends c.dir c.random name,
          receive_body-Ends c size reader,
        )
  ]
