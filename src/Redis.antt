-- ===== src/Redis.antt =====
-- What the session store uses of Redis and of `encoding/json`: interfaces, with the documented
-- behaviour that the proofs rest on. A time is in milliseconds unless it says otherwise.
use wormzy.Prelude.{
  ℕ, suc, ◌+◌, ◌≤◌, ◌<◌, String, Bool, true, false, ◌==◌, Text_eq, Option, none, some, List, [],
  ◌∷◌, length, All, ◌≡◌, ◌≢◌, ◌↔◌, if◌then◌else◌, leb,
}

abbrev pub is_some {ℓ} : {A : Type ℓ} → Option A → Bool
is_some none = false
is_some (some a) = true

-- A key's value with its deadline, as a read at `now` sees it.
abbrev pub visible {ℓ} : {V : Type ℓ} → (ℕ → ℕ → Bool) → ℕ → Option (V × Option ℕ) → Option V
visible lapsed now none = none
visible lapsed now (some (v, none)) = some v
visible lapsed now (some (v, some e)) = if lapsed now e then none else some v

-- PEXPIREAT gives a key that is there another deadline.
abbrev pub with_deadline {ℓ} : {V : Type ℓ} → ℕ → Option (V × Option ℕ) → Option (V × Option ℕ)
with_deadline e none = none
with_deadline e (some (v, _)) = some (v, some e)

abbrev pub AllDistinct : List String → Type 0
AllDistinct [] = Unit
AllDistinct (x ∷ xs) = All (λ y. x ≢ y) xs × AllDistinct xs

-- The commands, on keys that hold texts and on one kind of sorted set. `entry` and `score` say what a
-- state holds; they are not commands of the program.
pub record Redis : Type 1 where
  pub Db : Type 0
  -- the texts that keys hold
  pub Value : Type 0
  pub same_value : Value → Value → Bool
  pub same_value_iff : (v w : Value) → (same_value v w ≡ true) ↔ (v ≡ w)
  pub entry : Db → String → Option (Value × Option ℕ)
  pub score : Db → String → String → Option ℕ
  -- the key's deadline has passed
  pub lapsed : ℕ → ℕ → Bool
  pub lapsed_before : (now e : ℕ) → now < e → lapsed now e ≡ false
  pub lapsed_after : (now e : ℕ) → e < now → lapsed now e ≡ true
  -- SET key value: no deadline
  pub set : String → Value → Db → Db
  pub entry-set :
      (k : String) (v : Value) (d : Db) (j : String)
      → entry (set k v d) j ≡ (if k == j then some (v, none) else entry d j)
  pub score-set :
      (k : String) (v : Value) (d : Db) (z m : String) → score (set k v d) z m ≡ score d z m
  -- SET key value PX ttl, at a time
  pub set_px : ℕ → String → Value → ℕ → Db → Db
  pub entry-set_px :
      (now : ℕ) (k : String) (v : Value) (ttl : ℕ) (d : Db) (j : String)
      → entry (set_px now k v ttl d) j ≡ (if k == j then some (v, some (now + ttl)) else entry d j)
  pub score-set_px :
      (now : ℕ) (k : String) (v : Value) (ttl : ℕ) (d : Db) (z m : String)
      → score (set_px now k v ttl d) z m ≡ score d z m
  -- PEXPIREAT key deadline
  pub pexpireat : String → ℕ → Db → Db
  pub entry-pexpireat :
      (k : String) (e : ℕ) (d : Db) (j : String)
      → entry (pexpireat k e d) j ≡ (if k == j then with_deadline e (entry d k) else entry d j)
  pub score-pexpireat :
      (k : String) (e : ℕ) (d : Db) (z m : String) → score (pexpireat k e d) z m ≡ score d z m
  -- DEL key
  pub del : String → Db → Db
  pub entry-del :
      (k : String) (d : Db) (j : String) → entry (del k d) j ≡ (if k == j then none else entry d j)
  pub score-del : (k : String) (d : Db) (z m : String) → score (del k d) z m ≡ score d z m
  -- ZADD set score member
  pub zadd : String → ℕ → String → Db → Db
  pub entry-zadd :
      (z : String) (s : ℕ) (m : String) (d : Db) (j : String) → entry (zadd z s m d) j ≡ entry d j
  pub score-zadd :
      (z : String) (s : ℕ) (m : String) (d : Db) (n : String)
      → score (zadd z s m d) z n ≡ (if m == n then some s else score d z n)
  -- ZREM set member
  pub zrem : String → String → Db → Db
  pub entry-zrem : (z m : String) (d : Db) (j : String) → entry (zrem z m d) j ≡ entry d j
  pub score-zrem :
      (z m : String) (d : Db) (n : String)
      → score (zrem z m d) z n ≡ (if m == n then none else score d z n)
  -- ZREMRANGEBYSCORE set -inf max
  pub zremrangebyscore : String → ℕ → Db → Db
  pub entry-zremrangebyscore :
      (z : String) (max : ℕ) (d : Db) (j : String) → entry (zremrangebyscore z max d) j ≡ entry d j
  pub score-zremrangebyscore :
      (z : String) (max : ℕ) (d : Db) (n : String)
      → score (zremrangebyscore z max d) z n
        ≡ (elim (score d z n) [ none ↦ none | some s ↦ if leb s max then none else some s ])
  -- ZCARD set: the number of its members
  pub zcard : String → Db → ℕ
  pub zcard_members :
      (z : String) (d : Db) (ms : List String)
      → AllDistinct ms
      → All (λ m. is_some (score d z m) ≡ true) ms
      → length ms ≤ zcard z d
  pub zcard-zadd :
      (z : String) (s : ℕ) (m : String) (d : Db)
      → zcard z (zadd z s m d) ≡ (if is_some (score d z m) then zcard z d else suc (zcard z d))
  pub zcard-zrem-le : (z m : String) (d : Db) → zcard z (zrem z m d) ≤ zcard z d
  pub zcard-zremrangebyscore-le :
      (z : String) (max : ℕ) (d : Db) → zcard z (zremrangebyscore z max d) ≤ zcard z d
  pub zcard-set : (k : String) (v : Value) (d : Db) (z : String) → zcard z (set k v d) ≡ zcard z d
  pub zcard-set_px :
      (now : ℕ) (k : String) (v : Value) (ttl : ℕ) (d : Db) (z : String)
      → zcard z (set_px now k v ttl d) ≡ zcard z d
  pub zcard-pexpireat :
      (k : String) (e : ℕ) (d : Db) (z : String) → zcard z (pexpireat k e d) ≡ zcard z d
  pub zcard-del : (k : String) (d : Db) (z : String) → zcard z (del k d) ≡ zcard z d
