-- ===== src/Examples/Memory.antt =====
-- A Redis in memory and a codec, which show that the interfaces of Redis.antt and Store/Json.antt
-- can be filled.
use native.Mathlib.Decide.{ℕ_discrete}
use wormzy.Prelude.{
  ℕ, suc, ◌+◌, ◌≤◌, ◌<◌, String, Bool, true, false, ◌==◌, Text_eq, Option, none, some, List, [],
  ◌∷◌, length, All, map, if◌then◌else◌, ltb, leb, ◌≡◌, ◌≢◌, ◌↔◌, refl, ap, sym, ◌∙◌, arith, eq_iff,
  inl, inr, Bool-cases, Option-cases,
}
use wormzy.Prelude.Dict.{Dict, lookup, insert, lookup-insert, length-insert, length-insert_present}
use wormzy.Session.{RendezvousSession, MsgPt}
use wormzy.Redis.{Redis, is_some, with_deadline, AllDistinct}
use wormzy.Store.Json.{Json, compacted_queues}

text_discrete : Discrete String
text_discrete a b = elim (Bool-cases (a == b)) [
  | inl e ↦ yes ((eq_iff a b).0 e)
  | inr e ↦ no (λ p. ground (arith, eq_iff a b, p))
]

pub session_discrete : Discrete RendezvousSession
session_discrete = hlevel (ℕ_discrete, text_discrete)

abbrev decided {ℓ} : {P : Type ℓ} → Dec P → Bool
decided (yes _) = true
decided (no _) = false

pub decided_iff {ℓ} : {P : Type ℓ} (d : Dec P) → (decided d ≡ true) ↔ P
decided_iff (yes p) = (λ _. p, λ _. refl)
decided_iff (no n) = (λ h. absurd (ground arith), λ p. absurd (n p))

-- Every entry of the key leaves the map.
unfoldable pub without : String → Dict ℕ → Dict ℕ
without k [] = []
without k ((j, s) ∷ m) = if j == k then without k m else (j, s) ∷ without k m

pub lookup-without :
    (k j : String) (m : Dict ℕ) → lookup j (without k m) ≡ (if k == j then none else lookup j m)
unfolding without lookup
lookup-without k j [] = ground arith
lookup-without k j ((i, s) ∷ m) =
    ground (arith, eq_iff k j, eq_iff i k, eq_iff i j, lookup-without k j m)

pub length-without-le : (k : String) (m : Dict ℕ) → length (without k m) ≤ length m
unfolding without
length-without-le k [] = omega arith
length-without-le k ((i, s) ∷ m) = ground (arith, length-without-le k m)

length-without-lt :
    (k : String) (m : Dict ℕ) → is_some (lookup k m) ≡ true → length (without k m) < length m
unfolding without lookup
length-without-lt k [] h = absurd (ground arith)
length-without-lt k ((i, s) ∷ m) h = ground (arith, length-without-le k m, length-without-lt k m)

-- The entries with at most the given score leave.
unfoldable pub purge : ℕ → Dict ℕ → Dict ℕ
purge max [] = []
purge max ((j, s) ∷ m) = if leb s max then without j (purge max m) else (j, s) ∷ purge max m

pub lookup-purge :
    (max : ℕ) (j : String) (m : Dict ℕ)
    → lookup j (purge max m)
      ≡ (elim (lookup j m) [ none ↦ none | some s ↦ if leb s max then none else some s ])
unfolding purge lookup
lookup-purge max j [] = refl
lookup-purge max j ((i, s) ∷ m) = elim (Bool-cases (i == j)) [
  | inl same ↦ ground (arith, same, lookup-without i j (purge max m))
  | inr other ↦ ground (arith, other, lookup-without i j (purge max m), lookup-purge max j m)
]

pub length-purge-le : (max : ℕ) (m : Dict ℕ) → length (purge max m) ≤ length m
unfolding purge
length-purge-le max [] = omega arith
length-purge-le max ((i, s) ∷ m) =
    ground (arith, length-purge-le max m, length-without-le i (purge max m))

still_there :
    (k : String) (m : Dict ℕ) (ns : List String)
    → All (λ n. k ≢ n) ns
    → All (λ n. is_some (lookup n m) ≡ true) ns
    → All (λ n. is_some (lookup n (without k m)) ≡ true) ns
still_there k m [] d h = tt
still_there k m (n ∷ ns) d h =
    (ground (arith, lookup-without k n m, eq_iff k n, d.0, h.0), still_there k m ns d.1 h.1)

pub members-le-length :
    (m : Dict ℕ) (ns : List String)
    → AllDistinct ns
    → All (λ n. is_some (lookup n m) ≡ true) ns
    → length ns ≤ length m
members-le-length m [] d h = omega arith
members-le-length m (n ∷ ns) d h = omega (
  arith,
  length-without-lt n m h.0,
  members-le-length (without n m) ns d.1 (still_there n m ns d.0 h.1),
)

pub record Memory : Type 0 where
  pub keys : String → Option (RendezvousSession × Option ℕ)
  pub sets : String → Dict ℕ

abbrev pub empty : Memory
empty = record { keys = λ _. none; sets = λ _. [] }

abbrev put_key : String → Option (RendezvousSession × Option ℕ) → Memory → Memory
put_key k v d = record d { keys = λ j. if k == j then v else d.keys j }

abbrev put_set : String → Dict ℕ → Memory → Memory
put_set z m d = record d { sets = λ y. if z == y then m else d.sets y }

abbrev memory_get : Memory → String → Option (RendezvousSession × Option ℕ)
memory_get d k = d.keys k

abbrev pub memory_redis : Redis
memory_redis = record {
  Db = Memory;
  Value = RendezvousSession;
  same_value = λ v w. decided (session_discrete v w);
  same_value_iff = λ v w. decided_iff (session_discrete v w);
  entry = memory_get;
  score = λ d z m. lookup m (d.sets z);
  lapsed = λ now e. ltb e now;
  lapsed_before = λ now e h. ground (arith, h);
  lapsed_after = λ now e h. ground (arith, h);
  set = λ k v d. put_key k (some (v, none)) d;
  entry-set = λ k v d j. refl;
  score-set = λ k v d z m. refl;
  set_px = λ now k v ttl d. put_key k (some (v, some (now + ttl))) d;
  entry-set_px = λ now k v ttl d j. refl;
  score-set_px = λ now k v ttl d z m. refl;
  pexpireat = λ k e d. put_key k (with_deadline e (d.keys k)) d;
  entry-pexpireat = λ k e d j. refl;
  score-pexpireat = λ k e d z m. refl;
  del = λ k d. put_key k none d;
  entry-del = λ k d j. refl;
  score-del = λ k d z m. refl;
  zadd = λ z s m d. put_set z (insert m s (d.sets z)) d;
  entry-zadd = λ z s m d j. refl;
  score-zadd =
      λ z s m d n. scored_put z (insert m s (d.sets z)) d n ∙ lookup-insert m n s (d.sets z);
  zrem = λ z m d. put_set z (without m (d.sets z)) d;
  entry-zrem = λ z m d j. refl;
  score-zrem = λ z m d n. scored_put z (without m (d.sets z)) d n ∙ lookup-without m n (d.sets z);
  zremrangebyscore = λ z max d. put_set z (purge max (d.sets z)) d;
  entry-zremrangebyscore = λ z max d j. refl;
  score-zremrangebyscore =
      λ z max d n. scored_put z (purge max (d.sets z)) d n ∙ lookup-purge max n (d.sets z);
  zcard = λ z d. length (d.sets z);
  zcard_members = λ z d ms u h. members-le-length (d.sets z) ms u h;
  zcard-zadd = λ z s m d. length_put z (insert m s (d.sets z)) d ∙ length-insert_any m s (d.sets z);
  zcard-zrem-le = λ z m d. at_most z (without m (d.sets z)) d (length-without-le m (d.sets z));
  zcard-zremrangebyscore-le =
      λ z max d. at_most z (purge max (d.sets z)) d (length-purge-le max (d.sets z));
  zcard-set = λ k v d z. refl;
  zcard-set_px = λ now k v ttl d z. refl;
  zcard-pexpireat = λ k e d z. refl;
  zcard-del = λ k d z. refl;
}
  where
    scored_put :
        (z : String) (m : Dict ℕ) (d : Memory) (n : String)
        → lookup n ((put_set z m d).sets z) ≡ lookup n m
    scored_put z m d n = ground (arith, eq_iff z z)

    length_put : (z : String) (m : Dict ℕ) (d : Memory) → length ((put_set z m d).sets z) ≡ length m
    length_put z m d = ground (arith, eq_iff z z)

    at_most :
        (z : String) (m : Dict ℕ) (d : Memory)
        → length m ≤ length (d.sets z)
        → length ((put_set z m d).sets z) ≤ length (d.sets z)
    at_most z m d h = omega (arith, length_put z m d, h)

    length-insert_any :
        (m : String) (s : ℕ) (d : Dict ℕ)
        → length (insert m s d) ≡ (if is_some (lookup m d) then length d else suc (length d))
    length-insert_any m s d = elim (Option-cases (lookup m d)) [
      | inl e ↦ ground (arith, e, length-insert m s d e)
      | inr (w, e) ↦ ground (arith, e, length-insert_present m s w d e)
    ]

same_bodies :
    (queue : List MsgPt) → map (λ (item : MsgPt). record item { body = item.body }) queue ≡ queue
same_bodies [] = refl
same_bodies (item ∷ queue) = ap (λ q. item ∷ q) (same_bodies queue)

pub compacted_id : (m : Dict (List MsgPt)) → compacted_queues (λ b. b) m ≡ m
compacted_id [] = refl
compacted_id ((role, queue) ∷ m) = rw (same_bodies queue, compacted_id m) refl

abbrev pub memory_json : Json RendezvousSession
memory_json = record {
  marshal = λ sess. sess;
  unmarshal = some;
  compact = λ body. body;
  valid = λ _. true;
  unmarshal-marshal =
      λ sess. ap (λ m. some (record sess { pending = m })) (sym (compacted_id sess.pending));
}
