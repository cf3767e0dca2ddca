-- ===== src/Transfer/Files.antt =====
-- internal/transport/transport.go: the name under which a download is saved. A directory is a map
-- from names to contents.
use wormzy.Prelude.{
  ℕ, ◌+◌, zero, suc, Bool, true, false, not, ◌||◌, ◌==◌, Nat_eq, List_eq, list_eq_iff, Option, none,
  some, List, [], ◌∷◌, ◌++◌, codes, contains, map, ◌≡◌, ◌≢◌, refl, arith, if◌then◌else◌, ltb,
  Option-cases, subst, inl, inr, ◌⊎◌, Bool-cases,
}
use wormzy.Prelude.Fallible.{Fallible, ok, fail}
use wormzy.Encoding.{hex_encode}
use wormzy.Transfer.{
  TransferError, disk_space_unknown, insufficient_disk_space, create_failed, no_destination,
  no_random, Primitives,
}

-- `opens` is whether os.OpenRoot succeeds, `refuses` whether creating a name fails by another error
-- than fs.ErrExist, `free` what diskFreeBytes answers.
pub record Directory : Type 0 where
  pub opens : Bool
  pub refuses : List ℕ → Bool
  pub free : Option ℕ
  pub files : List ℕ → Option (List ℕ)

abbrev pub put : List ℕ → Option (List ℕ) → Directory → Directory
put name content d = record d { files = λ n. if n == name then content else d.files n }

-- O_CREATE|O_EXCL
pub data Opened : Type 0 where
  created : Directory → Opened
  exists : Opened
  refused : Opened

unfoldable pub open_candidate : Directory → List ℕ → Opened
open_candidate d name =
    if d.refuses name
    then refused
    else elim (d.files name) [ none ↦ created (put name (some []) d) | some _ ↦ exists ]

-- The name that was reserved, whether it differs from the one asked for, and the directory.
pub record Reserved : Type 0 where
  pub name : List ℕ
  pub renamed : Bool
  pub dir : Directory

abbrev wormzy_file : List ℕ
wormzy_file = codes "wormzy-file"

unfoldable pub ensure_free_space : Directory → ℕ → Fallible TransferError (Unit {0})
ensure_free_space d needed = elim d.free [
  | none ↦ fail disk_space_unknown
  | some avail ↦ if ltb avail needed then fail insufficient_disk_space else ok tt
]

-- One attempt to create a file, and what follows if the name exists.
unfoldable pub attempt_name :
    Directory → List ℕ → Bool → Fallible TransferError Reserved → Fallible TransferError Reserved
attempt_name d name renamed later = elim (open_candidate d name) [
  | created dir ↦ ok (record { name = name; renamed = renamed; dir = dir })
  | exists ↦ later
  | refused ↦ fail create_failed
]

module _ ⦃P : Primitives⦄ where
  abbrev pub clean : ℕ → ℕ
  clean char =
      if char == b'/' || (char == b'\\' || (P.is_control char || P.is_format char))
      then b'_'
      else char

  unfoldable pub sanitize_filename : List ℕ → List ℕ
  sanitize_filename s =
      let name = P.utf8 (map clean (P.runes s)) in
      if name == codes "." || name == codes ".." then wormzy_file else name

  abbrev pub numbered : List ℕ → List ℕ → ℕ → List ℕ
  numbered stem ext i = stem ++ (codes " (wormzy-" ++ (P.format_int i ++ (codes ")" ++ ext)))

  abbrev pub drawn_name : List ℕ → List ℕ → List ℕ → List ℕ
  drawn_name stem ext random = stem ++ (codes "-" ++ (hex_encode random ++ ext))

  -- The 16 draws: `random i` is what crypto/rand answers to the i-th from the last.
  unfoldable pub try_random :
      Directory → List ℕ → List ℕ → (ℕ → Option (List ℕ)) → ℕ → Fallible TransferError Reserved
  try_random d stem ext random zero = fail no_destination
  try_random d stem ext random (suc left) =
      let later = try_random d stem ext random left in
      elim (random left) [
        | none ↦ fail no_random
        | some bytes ↦ attempt_name d (drawn_name stem ext bytes) true later
      ]

  -- The numbers from i on, so many of them, then the draws.
  unfoldable pub try_numbered :
      Directory → List ℕ → List ℕ → (ℕ → Option (List ℕ)) → ℕ → ℕ → Fallible TransferError Reserved
  try_numbered d stem ext random i zero = try_random d stem ext random 16
  try_numbered d stem ext random i (suc left) =
      let later = try_numbered d stem ext random (i + 1) left in
      attempt_name d (numbered stem ext i) true later

  unfoldable pub create_download_file :
      Directory → List ℕ → (ℕ → Option (List ℕ)) → Fallible TransferError Reserved
  create_download_file d filename random =
      if not d.opens
      then fail create_failed
      else attempt_name d filename false
          (let ext = P.ext filename in try_numbered d (P.trim_suffix filename ext) ext random 1 99)

-- What a reservation did: the name was free, it is now an empty file, and nothing else changed.
pub record Reserves (d : Directory) (r : Reserved) : Type 0 where
  pub was_free : d.files r.name ≡ none
  pub dir : r.dir ≡ put r.name (some []) d

Opened-cases :
    (d : Directory) (name : List ℕ)
    → ((d.files name ≡ none) × (open_candidate d name ≡ created (put name (some []) d)))
      ⊎ ((open_candidate d name ≡ exists) ⊎ (open_candidate d name ≡ refused))
unfolding open_candidate
Opened-cases d name = elim (Bool-cases (d.refuses name)) [
  | inl r ↦ inr (inr (rw r refl))
  | inr r ↦ elim (Option-cases (d.files name)) [
    | inl free ↦ inl (free, rw (r, free) refl)
    | inr (content, taken) ↦ inr (inl (rw (r, taken) refl))
  ]
]

attempt_name-Reserves :
    (d : Directory) (name : List ℕ) (renamed : Bool) (later : Fallible TransferError Reserved)
    (r : Reserved)
    → (later ≡ ok r → Reserves d r)
    → attempt_name d name renamed later ≡ ok r
    → Reserves d r
unfolding attempt_name
attempt_name-Reserves d name renamed later r rest h = elim (Opened-cases d name) [
  | inl (free, made) ↦
      let same : record { name = name; renamed = renamed; dir = put name (some []) d } ≡ r =
        ground (arith, made, h) in
      subst (Reserves d) same (record { was_free = free; dir = refl })
  | inr (inl taken) ↦ rest (ground (arith, taken, h))
  | inr (inr no_way) ↦ absurd (ground (arith, no_way, h))
]

module _ ⦃P : Primitives⦄ (d : Directory) (r : Reserved) (random : ℕ → Option (List ℕ)) where
  try_random-Reserves :
      (stem ext : List ℕ) (left : ℕ) → try_random d stem ext random left ≡ ok r → Reserves d r
  unfolding try_random
  try_random-Reserves stem ext zero h = absurd (ground (arith, h))
  try_random-Reserves stem ext (suc left) h = elim (Option-cases (random left)) [
    | inl broken ↦ absurd (ground (arith, broken, h))
    | inr (bytes, drew) ↦
        attempt_name-Reserves d (drawn_name stem ext bytes) true (try_random d stem ext random left)
          r (try_random-Reserves stem ext left) (ground (arith, drew, h))
  ]

  try_numbered-Reserves :
      (stem ext : List ℕ) (i left : ℕ) → try_numbered d stem ext random i left ≡ ok r → Reserves d r
  unfolding try_numbered
  try_numbered-Reserves stem ext i zero h = try_random-Reserves stem ext 16 h
  try_numbered-Reserves stem ext i (suc left) h =
      attempt_name-Reserves d _ true _ r (try_numbered-Reserves stem ext (i + 1) left) h

  pub create_download_file-Reserves :
      (filename : List ℕ) → create_download_file d filename random ≡ ok r → Reserves d r
  unfolding create_download_file
  create_download_file-Reserves filename h = elim (Bool-cases d.opens) [
    | inl opens ↦
        let ext = P.ext filename in
        let stem = P.trim_suffix filename ext in
        attempt_name-Reserves d filename false (try_numbered d stem ext random 1 99) r
          (try_numbered-Reserves stem ext 1 99) (ground (arith, opens, h))
    | inr shut ↦ absurd (ground (arith, shut, h))
  ]

-- A text that is one name in a directory: it has no separator and is not the directory or its parent.
pub record IsPlain (name : List ℕ) : Type 0 where
  pub slash : contains name b'/' ≡ false
  pub backslash : contains name b'\\' ≡ false
  pub not_self : name ≢ codes "."
  pub not_parent : name ≢ codes ".."

module _ ⦃P : Primitives⦄ where
  contains-map-clean :
      (rs : List ℕ)
      → (contains (map clean rs) b'/' ≡ false) × (contains (map clean rs) b'\\' ≡ false)
  contains-map-clean [] = (refl, refl)
  contains-map-clean (r ∷ rs) =
      (ground (arith, contains-map-clean rs), ground (arith, contains-map-clean rs))

  -- If UTF-8 writes an ASCII byte only for the rune with that code, then a name that was cleaned
  -- has no slash and no backslash and is neither the directory itself nor its parent.
  pub sanitize_filename-IsPlain : (s : List ℕ) → IsPlain (sanitize_filename s)
  unfolding sanitize_filename
  sanitize_filename-IsPlain s =
      let raw = map clean (P.runes s) in
      let name = P.utf8 raw in
      elim (Bool-cases (name == codes "." || name == codes "..")) [
        | inl special ↦ rw special (record {
          slash = refl;
          backslash = refl;
          not_self = λ e. ground (arith, e);
          not_parent = λ e. ground (arith, e);
        })
        | inr plain ↦
            let cleaned = contains-map-clean (P.runes s) in
            rw plain (record {
              slash = ground (arith, cleaned, P.utf8_ascii raw b'/' (omega arith));
              backslash = ground (arith, cleaned, P.utf8_ascii raw b'\\' (omega arith));
              not_self = λ e. ground (arith, plain, (list_eq_iff name (codes ".")).1 e);
              not_parent = λ e. ground (arith, plain, (list_eq_iff name (codes "..")).1 e);
            })
      ]
