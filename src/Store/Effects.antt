-- ===== src/Store/Effects.antt =====
-- What a call leaves in Redis, key by key: `write_session`, the creating script and the removals.
use Prim.Native.String.{◌++◌}
use text.Mathlib.TextLemmas.{append_cancel_left}
use wormzy.Prelude.{
  ℕ, ◌+◌, ◌-◌, ◌*◌, ◌/◌, ◌%◌, ◌≤◌, ◌<◌, String, true, false, ◌==◌, Nat_eq, Text_eq, eq_iff, Option,
  none, some, if◌then◌else◌, ltb, leb, min, ◌≡◌, refl, inl, inr, arith, Bool-cases,
}
use wormzy.Redis.{Redis, is_some}
use wormzy.Store.Lifetime.{SessionStore, key, active_sessions_key}
use wormzy.Store.Create.{get, create_script}
use wormzy.Store.Modify.{write_session}

-- Two sessions never share a key.
pub key-injective :
    (st : SessionStore) (a b k : String) → key st a ≡ some k → key st b ≡ some k → a ≡ b
unfolding key
key-injective st a b k p q =
    let same : st.prefix ++ (":sessions:" ++ a) ≡ st.prefix ++ (":sessions:" ++ b) =
      ground (arith, p, q) in
    append_cancel_left ":sessions:" a b (append_cancel_left st.prefix _ _ same)

module _ ⦃R : Redis⦄ where
  open R use {
    Db, entry, score, lapsed, set, set_px, pexpireat, del, zadd, zrem, zcard, zremrangebyscore,
    entry-set, score-set, entry-set_px, score-set_px, entry-pexpireat, score-pexpireat, entry-del,
    score-del, entry-zadd, score-zadd, entry-zrem, score-zrem, entry-zremrangebyscore,
    score-zremrangebyscore, zcard-zadd, zcard-zrem-le, zcard-zremrangebyscore-le, zcard-set,
    zcard-set_px, zcard-pexpireat, zcard-del,
  }

  module _ (st : SessionStore) (k code : String) (payload : R.Value) (lease : ℕ) (d : Db) where
    pub entry-write_session :
        (j : String)
        → entry (write_session st k code payload lease d) j
          ≡ (if k == j then some (payload, some lease) else entry d j)
    unfolding write_session
    entry-write_session j =
        rw (entry-zadd (active_sessions_key st) lease code (pexpireat k lease (set k payload d)) j)
          (ground (
            arith,
            entry-pexpireat k lease (set k payload d) j,
            entry-set k payload d k,
            entry-set k payload d j,
            eq_iff k k,
            eq_iff k j,
          ))

    pub score-write_session :
        (n : String)
        → score (write_session st k code payload lease d) (active_sessions_key st) n
          ≡ (if code == n then some lease else score d (active_sessions_key st) n)
    unfolding write_session
    score-write_session n = ground (
      arith,
      score-zadd (active_sessions_key st) lease code (pexpireat k lease (set k payload d)) n,
      score-pexpireat k lease (set k payload d) (active_sessions_key st) n,
      score-set k payload d (active_sessions_key st) n,
    )

    pub zcard-write_session :
        is_some (score d (active_sessions_key st) code) ≡ true
        → zcard (active_sessions_key st) (write_session st k code payload lease d)
          ≡ zcard (active_sessions_key st) d
    unfolding write_session
    zcard-write_session h = ground (
      arith,
      zcard-zadd (active_sessions_key st) lease code (pexpireat k lease (set k payload d)),
      score-pexpireat k lease (set k payload d) (active_sessions_key st) code,
      score-set k payload d (active_sessions_key st) code,
      zcard-pexpireat k lease (set k payload d) (active_sessions_key st),
      zcard-set k payload d (active_sessions_key st),
    )

    pub zcard-write_session-le :
        zcard (active_sessions_key st) (write_session st k code payload lease d)
        ≤ zcard (active_sessions_key st) d + 1
    unfolding write_session
    zcard-write_session-le = ground (
      arith,
      zcard-zadd (active_sessions_key st) lease code (pexpireat k lease (set k payload d)),
      zcard-pexpireat k lease (set k payload d) (active_sessions_key st),
      zcard-set k payload d (active_sessions_key st),
    )

  module _ (z : String) (max : ℕ) (d : Db) where
    -- A member of the index that is still ahead of the clock is not purged.
    pub score-purged :
        (n : String) (e : ℕ)
        → score d z n ≡ some e
        → max < e
        → score (zremrangebyscore z max d) z n ≡ some e
    score-purged n e h l = ground (arith, score-zremrangebyscore z max d n)

  -- The state that a successful creation writes: `expires` is the new session's deadline.
  abbrev pub created_db : SessionStore → ℕ → String → String → R.Value → ℕ → Db → Db
  created_db st now_ms k code payload expires d = zadd (active_sessions_key st) expires code (
      set_px now_ms k payload (expires - now_ms)
        (zremrangebyscore (active_sessions_key st) now_ms d))

  -- What the creating script may do.
  pub data CreateCases (st : SessionStore) (now_ms : ℕ) (k code : String) (payload : R.Value)
      (max absolute : ℕ) (d : Db) (n : Db) : Type 0 where
    refused : n ≡ d → CreateCases st now_ms k code payload max absolute d n
    full :
        n ≡ zremrangebyscore (active_sessions_key st) now_ms d
        → CreateCases st now_ms k code payload max absolute d n
    written :
        (expires : ℕ)
        → now_ms < expires
        → expires ≤ absolute
        → zcard (active_sessions_key st) (zremrangebyscore (active_sessions_key st) now_ms d) < max
        → get now_ms k d ≡ none
        → n ≡ created_db st now_ms k code payload expires d
        → CreateCases st now_ms k code payload max absolute d n

  script_time : (now : ℕ) → now / 1000000 * 1000 + now % 1000000 / 1000 ≡ now / 1000
  script_time now = omega arith

  pub create_script-CreateCases :
      (st : SessionStore) (now : ℕ) (k : String) (max : ℕ) (payload : R.Value) (ttl : ℕ)
      (code : String) (absolute : ℕ) (d : Db)
      → CreateCases st
          (now / 1000)
          k
          code
          payload
          max
          absolute
          d
          (create_script now k (active_sessions_key st) max payload ttl code absolute d).1
  create_script-CreateCases st now k max payload ttl code absolute d =
      unfold create_script in
      rw (script_time now) (elim (Bool-cases (is_some (get (now / 1000) k d))) [
        | inl there ↦ rw there (refused refl)
        | inr gone ↦ rw gone (elim (Bool-cases (leb max (zcard active purged))) [
          | inl over ↦ rw over (full refl)
          | inr room ↦ rw room (elim (Bool-cases (ltb (expires - now / 1000) 1)) [
            | inl late ↦ rw late (full refl)
            | inr ahead ↦ rw ahead (elim (Bool-cases (is_some (get (now / 1000) k purged))) [
              | inl there ↦ rw there (full refl)
              | inr free ↦ rw free (
                  written expires (ground arith) (omega arith) (ground arith) (is_none _ gone) refl)
            ])
          ])
        ])
      ])
    where
      active : String
      active = active_sessions_key st

      purged : Db
      purged = zremrangebyscore active (now / 1000) d

      expires : ℕ
      expires = min (now / 1000 + ttl) absolute

      is_none : (o : Option R.Value) → is_some o ≡ false → o ≡ none
      is_none none h = refl
      is_none (some v) h = cc

  module _ (st : SessionStore) (now : ℕ) (k code : String) (payload : R.Value) (expires : ℕ)
      (d : Db) where
    abbrev purged_db : Db
    purged_db = zremrangebyscore (active_sessions_key st) now d

    abbrev keyed_db : Db
    keyed_db = set_px now k payload (expires - now) purged_db

    pub entry-created_db :
        (j : String)
        → now < expires
        → entry (created_db st now k code payload expires d) j
          ≡ (if k == j then some (payload, some expires) else entry d j)
    entry-created_db j h =
        let e : now + (expires - now) ≡ expires = omega arith in
        rw (
          entry-zadd (active_sessions_key st) expires code keyed_db j,
          entry-set_px now k payload (expires - now) purged_db j,
          entry-zremrangebyscore (active_sessions_key st) now d j,
          e,
        )

    pub score-created_db :
        (n : String)
        → score (created_db st now k code payload expires d) (active_sessions_key st) n
          ≡ (if code == n then some expires else score purged_db (active_sessions_key st) n)
    score-created_db n = rw (
      score-zadd (active_sessions_key st) expires code keyed_db n,
      score-set_px now k payload (expires - now) purged_db (active_sessions_key st) n,
    )

    pub zcard-created_db :
        zcard (active_sessions_key st) (created_db st now k code payload expires d)
        ≤ zcard (active_sessions_key st) purged_db + 1
    zcard-created_db = ground (
      arith,
      zcard-zadd (active_sessions_key st) expires code keyed_db,
      zcard-set_px now k payload (expires - now) purged_db (active_sessions_key st),
    )

  -- Deleting a session's key and its index entry.
  module _ (st : SessionStore) (k code : String) (d : Db) where
    abbrev pub removed_db : Db
    removed_db = zrem (active_sessions_key st) code (del k d)

    pub entry-removed_db : (j : String) → entry removed_db j ≡ (if k == j then none else entry d j)
    entry-removed_db j = rw (entry-zrem (active_sessions_key st) code (del k d) j, entry-del k d j)

    pub score-removed_db :
        (n : String)
        → score removed_db (active_sessions_key st) n
          ≡ (if code == n then none else score d (active_sessions_key st) n)
    score-removed_db n = rw (
      score-zrem (active_sessions_key st) code (del k d) n,
      score-del k d (active_sessions_key st) n,
    )

    pub zcard-removed_db :
        zcard (active_sessions_key st) removed_db ≤ zcard (active_sessions_key st) d
    zcard-removed_db = ground (
      arith,
      zcard-zrem-le (active_sessions_key st) code (del k d),
      zcard-del k d (active_sessions_key st),
    )
