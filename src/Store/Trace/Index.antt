-- ===== src/Store/Trace/Index.antt =====
-- The index of active sessions against the sessions' keys, over any trace.
use wormzy.Prelude.{
  ℕ, ◌+◌, ◌*◌, ◌≤◌, ◌<◌, String, Bool, true, false, ◌==◌, Nat_eq, Text_eq, eq_iff, Option, some,
  ◌≡◌, refl, sym, ap, ◌∙◌, inl, inr, arith, Bool-cases,
}
use wormzy.Prelude.Int.{pos}
use wormzy.Redis.{Redis}
use wormzy.Session.{RendezvousSession}
use wormzy.Store.Json.{Json}
use wormzy.Store.Lifetime.{
  SessionStore, key, active_sessions_key, effective_max_sessions, lifetime_millis,
}
use wormzy.Store.Effects.{
  score-purged, removed_db, entry-removed_db, score-removed_db, zcard-removed_db,
}

module _ ⦃R : Redis⦄ ⦃J : Json R.Value⦄ (st : SessionStore) where
  open R use {
    Db, entry, score, zcard, zremrangebyscore, entry-zremrangebyscore, zcard-zremrangebyscore-le,
  }
  open J use {unmarshal, marshal}

  -- What a session's value says of its deadline: it is the session's own value, and its lifetime
  -- counts from its creation.
  pub record IsLawful (code : String) (v : R.Value) (e : ℕ) : Type 0 where
    pub sess : RendezvousSession
    pub created : ℕ
    pub decodes : unmarshal v ≡ some sess
    pub own : sess.code ≡ code
    pub since : sess.created_unix ≡ pos created
    pub within : e ≤ created * 1000 + lifetime_millis st

  -- A session's key has a deadline, and until then the index holds the session with that deadline.
  pub record IsIndexed (now : ℕ) (d : Db) (code : String) (v : R.Value) (x : Option ℕ)
      : Type 0 where
    pub deadline : ℕ
    pub has_deadline : x ≡ some deadline
    pub in_index : now < deadline → score d (active_sessions_key st) code ≡ some deadline
    pub lawful : IsLawful code v deadline

  -- The index holds no more sessions than the limit and these others.
  pub record Inv (extra now : ℕ) (d : Db) : Type 0 where
    pub indexed :
        (code k : String) (v : R.Value) (x : Option ℕ)
        → key st code ≡ some k
        → entry d k ≡ some (v, x)
        → IsIndexed now d code v x
    pub bounded : zcard (active_sessions_key st) d ≤ effective_max_sessions st + extra

  IsIndexed-later :
      (now later : ℕ) (d : Db) (code : String) (v : R.Value) (x : Option ℕ)
      → now ≤ later
      → IsIndexed now d code v x
      → IsIndexed later d code v x
  IsIndexed-later now later d code v x h i = record {
    deadline = i.deadline;
    has_deadline = i.has_deadline;
    in_index = λ l. i.in_index (omega arith);
    lawful = i.lawful;
  }

  pub Inv-later : (extra now later : ℕ) (d : Db) → now ≤ later → Inv extra now d → Inv extra later d
  Inv-later extra now later d h v = record {
    indexed = λ code k r x p q. IsIndexed-later now later d code r x h (v.indexed code k r x p q);
    bounded = v.bounded;
  }

  -- Another state agrees on one session, so the session is indexed there too.
  pub transfer :
      (now : ℕ) (d n : Db) (code : String) (v : R.Value) (x : Option ℕ)
      → ((e : ℕ)
          → now < e
          → score d (active_sessions_key st) code ≡ some e
          → score n (active_sessions_key st) code ≡ some e)
      → IsIndexed now d code v x
      → IsIndexed now n code v x
  transfer now d n code v x f i = record {
    deadline = i.deadline;
    has_deadline = i.has_deadline;
    in_index = λ l. f i.deadline l (i.in_index l);
    lawful = i.lawful;
  }

  module _ (extra now : ℕ) (d : Db) (v : Inv extra now d) where
    pub purge-Inv : Inv extra now (zremrangebyscore (active_sessions_key st) now d)
    purge-Inv = record {
      indexed = λ code k r x p q.
          transfer now d _ code r x
            (λ e l s. score-purged (active_sessions_key st) now d code e s l)
            (v.indexed code k r x p
              (sym (entry-zremrangebyscore (active_sessions_key st) now d k) ∙ q));
      bounded = omega (arith, v.bounded, zcard-zremrangebyscore-le (active_sessions_key st) now d);
    }

    module _ (code k : String) (own : key st code ≡ some k) where
      -- Another session's key and member are not this one's.
      pub other_key : (j c : String) → key st c ≡ some j → (k == j) ≡ false → (code == c) ≡ false
      other_key j c p ne = elim (Bool-cases (code == c)) [
        | inl same ↦
            let e : code ≡ c = (eq_iff code c).0 same in
            let ks : some k ≡ some j = sym own ∙ ap (key st) e ∙ p in
            absurd (ground (arith, eq_iff k j))
        | inr other ↦ other
      ]

      pub removed-Inv : Inv extra now (removed_db st k code d)
      removed-Inv = record {
        indexed = λ c j r x p q. gone c j r x p q (k == j) refl;
        bounded = omega (arith, v.bounded, zcard-removed_db st k code d);
      }
        where
          gone :
              (c j : String) (r : R.Value) (x : Option ℕ)
              → key st c ≡ some j
              → entry (removed_db st k code d) j ≡ some (r, x)
              → (b : Bool) → (k == j) ≡ b
              → IsIndexed now (removed_db st k code d) c r x
          gone c j r x p q true e = absurd (ground (arith, entry-removed_db st k code d j))
          gone c j r x p q false e =
              transfer now d _ c r x
                (λ n l s. ground (arith, score-removed_db st k code d c, other_key j c p e))
                (v.indexed c j r x p (ground (arith, entry-removed_db st k code d j)))
