-- ===== src/Store/Passes.antt =====
-- internal/transport/session_store.go, `modify`: what one pass of its loop leaves in Redis, key by key.
use wormzy.Prelude.{
  ℕ, String, true, ◌==◌, Text_eq, eq_iff, Option, none, some, if◌then◌else◌, ◌≡◌, sym, ap, ◌∙◌,
  arith,
}
use wormzy.Prelude.Int.{pos}
use wormzy.Redis.{Redis, visible}
use wormzy.Session.{
  RendezvousSession, StoreError, Result, ok, err, session_not_found, mailbox_unavailable,
}
use wormzy.Store.Json.{Json}
use wormzy.Store.Lifetime.{
  SessionStore, key, active_sessions_key, IsLease, refresh_expiry_millis, refresh_expiry_millis_iff,
  refresh_expiry_millis_bounds, absolute_expiry_millis_bounds,
}
use wormzy.Store.Create.{get}
use wormzy.Store.Modify.{Mutation, Try, attempt, usable}
use wormzy.Store.Effects.{
  entry-write_session, score-write_session, entry-removed_db, score-removed_db,
}
use wormzy.Store.Attempt.{
  AttemptCases, bad_code, missing, removed, refused_by, committed, attempt-AttemptCases,
  usable-eq-some,
}

module _ ⦃R : Redis⦄ ⦃J : Json R.Value⦄ where
  open R use {Db, entry, score}
  open J use {unmarshal, marshal}

  -- What a key holds is a session that a pass can work on, with the lease that a write would give.
  pub record IsUsable (st : SessionStore) (code : String) (clock : ℕ) (raw : R.Value)
      (sess : RendezvousSession) (lease : ℕ) : Type 0 where
    pub created : ℕ
    pub decodes : unmarshal raw ≡ some sess
    pub own : sess.code ≡ code
    pub since : sess.created_unix ≡ pos created
    pub is_lease : IsLease st created clock lease

  -- Redis afterwards holds this at the session's key and in the index, and all else as before.
  pub record Puts (st : SessionStore) (k code : String) (value : Option (R.Value × Option ℕ))
      (member : Option ℕ) (before after : Db) : Type 0 where
    pub entries : (j : String) → entry after j ≡ (if k == j then value else entry before j)
    pub scores :
        (m : String)
        → score after (active_sessions_key st) m
          ≡ (if code == m then member else score before (active_sessions_key st) m)

  pub data PassCases {A : Type 0} (st : SessionStore) (code : String) (mutate : Mutation A)
      (t : Try) (r : Result (A × RendezvousSession)) (n : Db) : Type 0 where
    no_key :
        key st code ≡ none
        → r ≡ err mailbox_unavailable
        → n ≡ t.current
        → PassCases st code mutate t r n
    no_session :
        (k : String)
        → key st code ≡ some k
        → visible R.lapsed t.read_at (entry t.watched k) ≡ none
        → r ≡ err session_not_found
        → n ≡ t.current
        → PassCases st code mutate t r n
    dropped :
        (k : String) (raw : R.Value)
        → key st code ≡ some k
        → visible R.lapsed t.read_at (entry t.watched k) ≡ some raw
        → ¬ ((sess : RendezvousSession) × (lease : ℕ) × IsUsable st code t.clock raw sess lease)
        → t.intact ≡ true
        → r ≡ err session_not_found
        → Puts st k code none none t.current n
        → PassCases st code mutate t r n
    rejected :
        (k : String) (raw : R.Value) (sess : RendezvousSession) (lease : ℕ) (e : StoreError)
        → key st code ≡ some k
        → visible R.lapsed t.read_at (entry t.watched k) ≡ some raw
        → IsUsable st code t.clock raw sess lease
        → mutate sess ≡ err e
        → r ≡ err e
        → n ≡ t.current
        → PassCases st code mutate t r n
    stored :
        (k : String) (raw : R.Value) (sess changed : RendezvousSession) (lease : ℕ) (a : A)
        → key st code ≡ some k
        → visible R.lapsed t.read_at (entry t.watched k) ≡ some raw
        → IsUsable st code t.clock raw sess lease
        → mutate sess ≡ ok (a, changed)
        → t.intact ≡ true
        → r ≡ ok (a, changed)
        → Puts st k code (some (marshal changed, some lease)) (some lease) t.current n
        → PassCases st code mutate t r n

  usable-IsUsable :
      (st : SessionStore) (code : String) (clock : ℕ) (raw : R.Value) (sess : RendezvousSession)
      (lease : ℕ)
      → usable st code clock (unmarshal raw) ≡ some (sess, lease)
      → IsUsable st code clock raw sess lease
  usable-IsUsable st code clock raw sess lease h =
      let (decodes, fresh, own) = usable-eq-some st code clock (unmarshal raw) sess lease h in
      let (a, absolute, _, _) =
        refresh_expiry_millis_bounds st sess.created_unix clock lease fresh in
      let (c, since, _, _, _, _) =
        absolute_expiry_millis_bounds st sess.created_unix clock a absolute in
      record {
        created = c;
        decodes = decodes;
        own = own;
        since = since;
        is_lease =
            (refresh_expiry_millis_iff st c clock lease).0
              (ap (λ z. refresh_expiry_millis st z clock) (sym since) ∙ fresh);
      }

  IsUsable-usable :
      (st : SessionStore) (code : String) (clock : ℕ) (raw : R.Value) (sess : RendezvousSession)
      (lease : ℕ)
      → IsUsable st code clock raw sess lease
      → usable st code clock (unmarshal raw) ≡ some (sess, lease)
  IsUsable-usable st code clock raw sess lease u =
      let fresh : refresh_expiry_millis st sess.created_unix clock ≡ some lease =
        ap (λ z. refresh_expiry_millis st z clock) u.since
        ∙ (refresh_expiry_millis_iff st u.created clock lease).1 u.is_lease in
      ground (arith, u.decodes, fresh, u.own, eq_iff sess.code code)

  -- If one pass of modify ends without a retry, then it ends in one of five ways. The identifier is
  -- invalid, or no session is visible: an error, and nothing is written. What is visible is no
  -- session with this code and a lease left: it is not found, and its key and its index entry are
  -- gone. The mutation refuses the session: its error, and nothing is written. Or the mutation
  -- changes it: the key holds the JSON of its result, and the key and the index have the refreshed
  -- lease as deadline. In all cases every other key and index entry is as it was.
  pub attempt-PassCases :
      {A : Type 0} (st : SessionStore) (code : String) (mutate : Mutation A) (t : Try)
      (r : Result (A × RendezvousSession)) (n : Db)
      → attempt st code mutate t ≡ some (r, n)
      → PassCases st code mutate t r n
  unfolding get
  attempt-PassCases {A} st code mutate t r n h = cases (attempt-AttemptCases st code mutate t r n h)
    where
      cases : AttemptCases st code mutate t r n → PassCases st code mutate t r n
      cases (bad_code e out same) = no_key e out same
      cases (missing k own gone out same) = no_session k own gone out same
      cases (removed k raw own found unusable kept out is) =
          dropped k raw own found
            (λ (sess, lease, u).
              let use' = IsUsable-usable st code t.clock raw sess lease u in
              ground (arith, unusable, use'))
            kept out
            (rw is (record {
              entries = entry-removed_db st k code t.current;
              scores = score-removed_db st k code t.current;
            }))
      cases (refused_by k raw sess lease e own found use' m out same) =
          rejected k raw sess lease e own found
            (usable-IsUsable st code t.clock raw sess lease use') m out same
      cases (committed k raw sess lease (a, changed) own found use' m kept out is) =
          stored k raw sess changed lease a own found
            (usable-IsUsable st code t.clock raw sess lease use') m kept out
            (rw is (record {
              entries = entry-write_session st k code (marshal changed) lease t.current;
              scores = score-write_session st k code (marshal changed) lease t.current;
            }))
