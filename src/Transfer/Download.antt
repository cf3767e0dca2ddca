-- ===== src/Transfer/Download.antt =====
-- internal/transport/transport.go, receiveFile: what a download leaves in the directory.
use wormzy.Prelude.{
  ℕ, ◌==◌, List_eq, Nat_eq, list_eq_iff, if◌then◌else◌, Option, none, some, List, length, ◌≡◌, ◌≢◌,
  sym, ap, ◌∙◌, subst, arith, ◌⊎◌, inl, inr, Option-cases,
}
use wormzy.Prelude.Fallible.{Fallible, ok, fail, ◌>>=◌, >>=-eq-ok, Fallible-cases}
use wormzy.Transfer.{TransferError, Primitives}
use wormzy.Transfer.Frames.{Stream, AeadReader}
use wormzy.Transfer.Files.{
  Directory, Reserved, Reserves, create_download_file-Reserves, create_download_file, put,
  sanitize_filename, ensure_free_space,
}
use wormzy.Transfer.Receive.{
  ReceiveCalls, Received, receive_body, receive_file, open_transfer, finish_download, default_name,
  clamp_int64,
}
use wormzy.Transfer.Carriage.{Carries}
use wormzy.Transfer.Integrity.{HasOpened, receive_body-eq-ok, open_transfer-HasOpened}

abbrev Answer : Type 0
Answer = Directory × Fallible TransferError Received

abbrev outcome : Answer → Fallible TransferError Received
outcome answer = answer.1

-- What is put where the reservation was.
kept :
    (d : Directory) (out : Reserved) (entry : Option (List ℕ)) (name : List ℕ)
    → Reserves d out
    → (put out.name entry out.dir).files name ≡ (if name == out.name then entry else d.files name)
kept d out entry name r = ground (arith, ap (λ (dir : Directory). dir.files name) r.dir)

-- Nothing is left where the reservation was.
removed :
    (d : Directory) (out : Reserved)
    → Reserves d out
    → (name : List ℕ) → (put out.name none out.dir).files name ≡ d.files name
removed d out r name = ground (
  arith,
  r.was_free,
  kept d out none name r,
  list_eq_iff name out.name,
  λ (same : name ≡ out.name). ap d.files same,
)

-- A file that a receiver has made and could not remove.
pub record IsLeft (c : ReceiveCalls) (after : Directory) : Type 0 where
  pub path : List ℕ
  pub content : List ℕ
  pub not_removed : c.remains ≡ some content
  pub was_free : c.dir.files path ≡ none
  pub left : after.files path ≡ some content
  pub others : (name : List ℕ) → name ≢ path → after.files name ≡ c.dir.files name

module _ ⦃P : Primitives⦄ where
  -- A download that is kept: a new file that the stream carries, and nothing else in the directory
  -- has changed.
  pub record IsSaved (key : List ℕ) (c : ReceiveCalls) (after : Directory) (r : Received)
      : Type 0 where
    pub stream : Stream
    pub content : List ℕ
    pub is_stream : c.stream ≡ some stream
    pub carries : Carries key stream.pending content
    pub was_free : c.dir.files r.path ≡ none
    pub saved : after.files r.path ≡ some content
    pub others : (name : List ℕ) → name ≢ r.path → after.files name ≡ c.dir.files name
    pub digest : r.digest ≡ P.hash content
    pub size : r.size ≡ clamp_int64 (length content)

  reserved :
      (c : ReceiveCalls) (size : ℕ) (name : List ℕ) (out : Reserved)
      → (ensure_free_space c.dir size >>= λ _. create_download_file c.dir name c.random) ≡ ok out
      → Reserves c.dir out
  reserved c size name out made =
      let (_, _, h) =
        >>=-eq-ok (ensure_free_space c.dir size) (λ _. create_download_file c.dir name c.random)
          made in
      create_download_file-Reserves c.dir out c.random name h

  -- A receiver that has reserved its file.
  record HasReserved (key : List ℕ) (c : ReceiveCalls) : Type 0 where
    size : ℕ
    reader : AeadReader
    out : Reserved
    opened : HasOpened key c size reader
    reserves : Reserves c.dir out
    ends : receive_file key c ≡ finish_download c out size (receive_body c size reader)

  -- Either nothing is written at all, or a file is reserved.
  receive_file-cases :
      (key : List ℕ) (c : ReceiveCalls)
      → ((e : TransferError) × (receive_file key c ≡ (c.dir, fail e))) ⊎ HasReserved key c
  unfolding receive_file
  receive_file-cases key c = elim (Fallible-cases (open_transfer key c)) [
    | inr (e, failing) ↦ inl (e, ground (arith, failing))
    | inl ((raw, (size, reader)), begun) ↦
        let asked = default_name (sanitize_filename raw) in
        elim (Fallible-cases
          (ensure_free_space c.dir size >>= λ _. create_download_file c.dir asked c.random)) [
            | inr (e, failing) ↦ inl (e, ground (arith, begun, failing))
            | inl (out, made) ↦ inr (record {
              size = size;
              reader = reader;
              out = out;
              opened = open_transfer-HasOpened key raw c size reader begun;
              reserves = reserved c size asked out made;
              ends = ground (arith, begun, made);
            })
          ]
  ]

  -- If a receiver fails, with whatever error, then every file of the directory is as it was, unless
  -- the removal of the file that it had made fails: then that file was not there before and has
  -- what remained of it, and every other file is as it was.
  pub receive_file-fail :
      (key : List ℕ) (c : ReceiveCalls) (e : TransferError)
      → (receive_file key c).1 ≡ fail e
      → ((name : List ℕ) → (receive_file key c).0.files name ≡ c.dir.files name)
        ⊎ IsLeft c (receive_file key c).0
  unfolding finish_download
  receive_file-fail key c e h = elim (receive_file-cases key c) [
    | inl (x, untouched) ↦ inl (λ name. ap (λ (a : Answer). a.0.files name) untouched)
    | inr b ↦
        let out = b.out in
        elim (Fallible-cases (receive_body c b.size b.reader)) [
          | inl ((all, sum), done) ↦ absurd (ground (arith, done, h, ap outcome b.ends))
          | inr (x, failing) ↦
              let whole : receive_file key c ≡ (put out.name c.remains out.dir, fail x) =
                b.ends ∙ ap (finish_download c out b.size) failing in
              rw whole (elim (Option-cases c.remains) [
                | inl gone ↦ inl (λ name.
                    ap (λ entry. (put out.name entry out.dir).files name) gone
                    ∙ removed c.dir out b.reserves name)
                | inr (content, there) ↦
                    let at : (name : List ℕ)
                        → (put out.name c.remains out.dir).files name
                          ≡ (if name == out.name then c.remains else c.dir.files name) =
                      λ name. kept c.dir out c.remains name b.reserves in
                    inr (record {
                      path = out.name;
                      content = content;
                      not_removed = there;
                      was_free = b.reserves.was_free;
                      left = ground (arith, there, at out.name, list_eq_iff out.name out.name);
                      others =
                          λ name other. ground (arith, other, at name, list_eq_iff name out.name);
                    })
              ])
        ]
  ]

  -- If a receiver succeeds, then its path was free before; the file there has the digest and the
  -- size that are returned; the stream that was received begins with a base nonce of 24 bytes and
  -- then, each frame unsealed by the key under the nonce of its place, a header that names that
  -- size, chunks that joined are the contents of the file, and metadata that names that digest and
  -- size; and every other file is as it was.
  pub receive_file-IsSaved :
      (key : List ℕ) (c : ReceiveCalls) (r : Received)
      → (receive_file key c).1 ≡ ok r
      → IsSaved key c (receive_file key c).0 r
  unfolding finish_download
  receive_file-IsSaved key c r h = elim (receive_file-cases key c) [
    | inl (x, untouched) ↦ absurd (ground (arith, h, ap outcome untouched))
    | inr b ↦ elim (Fallible-cases (receive_body c b.size b.reader)) [
      | inr (x, failing) ↦ absurd (ground (arith, h, failing, ap outcome b.ends))
      | inl ((all, sum), finished) ↦
          let (exact, (digest, carries)) =
            receive_body-eq-ok key c b.size b.reader all sum b.opened finished in
          let out = b.out in
          let kept_as : Received = record {
            path = out.name;
            digest = sum;
            size = clamp_int64 b.size;
          } in
          let whole : receive_file key c ≡ (put out.name (some all) out.dir, ok kept_as) =
            b.ends ∙ ap (finish_download c out b.size) finished in
          let same : kept_as ≡ r = ground (arith, h, ap outcome whole) in
          let at : (name : List ℕ)
              → (put out.name (some all) out.dir).files name
                ≡ (if name == out.name then some all else c.dir.files name) =
            λ name. kept c.dir out (some all) name b.reserves in
          rw whole (
            subst (IsSaved key c (put out.name (some all) out.dir)) same (record {
              stream = b.opened.stream;
              content = all;
              is_stream = b.opened.is_stream;
              carries = carries;
              was_free = b.reserves.was_free;
              saved = ground (arith, at out.name, list_eq_iff out.name out.name);
              others = λ name other. ground (arith, other, at name, list_eq_iff name out.name);
              digest = digest;
              size = ap clamp_int64 (sym exact);
            }))
    ]
  ]
