-- ===== src/Store/Trace/Writes.antt =====
-- Writing a session keeps the index.
use wormzy.Prelude.{
  ℕ, ◌+◌, ◌<◌, ◌⊎◌, inl, inr, String, Bool, true, false, ◌==◌, Nat_eq, Text_eq, eq_iff, Option,
  some, if◌then◌else◌, ◌≡◌, refl, arith, subst,
}
use wormzy.Redis.{Redis, is_some}
use wormzy.Store.Json.{Json}
use wormzy.Store.Lifetime.{SessionStore, key, active_sessions_key, effective_max_sessions}
use wormzy.Store.Modify.{write_session}
use wormzy.Store.Effects.{
  key-injective, entry-write_session, score-write_session, zcard-write_session,
  zcard-write_session-le, score-purged, created_db, entry-created_db, score-created_db,
  zcard-created_db,
}
use wormzy.Store.Trace.Index.{Inv, IsIndexed, IsLawful, transfer, other_key}

module _ ⦃R : Redis⦄ ⦃J : Json R.Value⦄ (st : SessionStore) (extra now : ℕ) (d : R.Db)
    (v : Inv st extra now d) (code k : String) (payload : R.Value)
    (own : key st code ≡ some k) where
  open R use {Db, entry, score, zcard, zremrangebyscore}

  -- The written key belongs to the session itself.
  is_own : (c j : String) → key st c ≡ some j → (k == j) ≡ true → code ≡ c
  is_own c j p e = key-injective st code c k own (rw ((eq_iff k j).0 e) p)

  module _ (deadline : ℕ) (lawful : IsLawful st code payload deadline) (n : Db)
      (entries : (j : String)
        → entry n j ≡ (if k == j then some (payload, some deadline) else entry d j))
      (scores : (c : String)
        → score n (active_sessions_key st) c
          ≡ (if code == c then some deadline else score n (active_sessions_key st) c))
      (kept : (c : String) (e : ℕ)
        → (code == c) ≡ false
        → now < e
        → score d (active_sessions_key st) c ≡ some e
        → score n (active_sessions_key st) c ≡ some e) where
    written-IsIndexed :
        (c j : String) (r : R.Value) (x : Option ℕ)
        → key st c ≡ some j
        → entry n j ≡ some (r, x)
        → (b : Bool) → (k == j) ≡ b
        → IsIndexed st now n c r x
    written-IsIndexed c j r x p q true e =
        let same : code ≡ c = is_own c j p e in
        let value : payload ≡ r = ground (arith, entries j) in
        record {
          deadline = deadline;
          has_deadline = ground (arith, entries j);
          in_index = λ _. ground (arith, scores c, eq_iff code c);
          lawful =
              subst (λ w. IsLawful st c w deadline) value
                (subst (λ w. IsLawful st w payload deadline) same lawful);
        }
    written-IsIndexed c j r x p q false e =
        transfer st now d n c r x
          (λ f l s. kept c f (other_key st extra now d v code k own j c p e) l s)
          (v.indexed c j r x p (ground (arith, entries j)))

  -- A lease that is refreshed. The index has one session more if it did not hold this one.
  pub write_session-Inv :
      (lease more : ℕ)
      → IsLawful st code payload lease
      → (is_some (score d (active_sessions_key st) code) ≡ true) ⊎ (more ≡ 1)
      → Inv st (extra + more) now (write_session st k code payload lease d)
  write_session-Inv lease more lawful present = record {
    indexed = λ c j r x p q.
        written-IsIndexed lease lawful _ (entry-write_session st k code payload lease d)
          (λ m. ground (arith, score-write_session st k code payload lease d m))
          (λ m e ne l s. ground (arith, score-write_session st k code payload lease d m)) c j r x p
          q (k == j) refl;
    bounded = elim present [
      | inl there ↦ omega (arith, v.bounded, zcard-write_session st k code payload lease d there)
      | inr one ↦ omega (arith, v.bounded, one, zcard-write_session-le st k code payload lease d)
    ];
  }

  -- A new session, if the purged index has room.
  pub created_db-Inv :
      (expires : ℕ)
      → now < expires
      → IsLawful st code payload expires
      → zcard (active_sessions_key st) (zremrangebyscore (active_sessions_key st) now d)
        < effective_max_sessions st
      → Inv st extra now (created_db st now k code payload expires d)
  created_db-Inv expires ahead lawful room = record {
    indexed = λ c j r x p q.
        written-IsIndexed expires lawful _
          (λ i. entry-created_db st now k code payload expires d i ahead)
          (λ m. ground (arith, score-created_db st now k code payload expires d m))
          (λ m e ne l s. ground (
            arith,
            score-created_db st now k code payload expires d m,
            score-purged (active_sessions_key st) now d m e,
          ))
          c j r x p q (k == j) refl;
    bounded = omega (arith, room, zcard-created_db st now k code payload expires d);
  }
