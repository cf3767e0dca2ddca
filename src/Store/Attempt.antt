-- ===== src/Store/Attempt.antt =====
-- `modify`: the ways in which one pass of its loop ends.
use wormzy.Prelude.{
  ℕ, String, Bool, true, Text_eq, eq_iff, Option, none, some, ◌≡◌, refl, ap, ◌∙◌, inl, inr, arith,
  Bool-cases, Option-cases,
}
use wormzy.Redis.{Redis, visible}
use wormzy.Session.{
  RendezvousSession, StoreError, Result, ok, err, session_not_found, mailbox_unavailable,
}
use wormzy.Store.Json.{Json}
use wormzy.Store.Lifetime.{SessionStore, key, refresh_expiry_millis}
use wormzy.Store.Create.{get}
use wormzy.Store.Modify.{Mutation, Try, attempt, read_back, write_session, usable, commit}
use wormzy.Store.Effects.{removed_db}

module _ ⦃R : Redis⦄ ⦃J : Json R.Value⦄ where
  open R use {Db, entry}
  open J use {unmarshal, marshal}

  -- A pass that is not retried: the identifier is invalid, the session is not there, what is there
  -- is removed, the mutation refuses, or its result is written.
  pub data AttemptCases {A : Type 0} (st : SessionStore) (code : String) (mutate : Mutation A)
      (t : Try) (r : Result (A × RendezvousSession)) (n : Db) : Type 0 where
    bad_code :
        key st code ≡ none
        → r ≡ err mailbox_unavailable
        → n ≡ t.current
        → AttemptCases st code mutate t r n
    missing :
        (k : String)
        → key st code ≡ some k
        → get t.read_at k t.watched ≡ none
        → r ≡ err session_not_found
        → n ≡ t.current
        → AttemptCases st code mutate t r n
    removed :
        (k : String) (raw : R.Value)
        → key st code ≡ some k
        → get t.read_at k t.watched ≡ some raw
        → usable st code t.clock (unmarshal raw) ≡ none
        → t.intact ≡ true
        → r ≡ err session_not_found
        → n ≡ removed_db st k code t.current
        → AttemptCases st code mutate t r n
    refused_by :
        (k : String) (raw : R.Value) (sess : RendezvousSession) (lease : ℕ) (e : StoreError)
        → key st code ≡ some k
        → get t.read_at k t.watched ≡ some raw
        → usable st code t.clock (unmarshal raw) ≡ some (sess, lease)
        → mutate sess ≡ err e
        → r ≡ err e
        → n ≡ t.current
        → AttemptCases st code mutate t r n
    committed :
        (k : String) (raw : R.Value) (sess : RendezvousSession) (lease : ℕ)
        (changed : A × RendezvousSession)
        → key st code ≡ some k
        → get t.read_at k t.watched ≡ some raw
        → usable st code t.clock (unmarshal raw) ≡ some (sess, lease)
        → mutate sess ≡ ok changed
        → t.intact ≡ true
        → r ≡ ok changed
        → n ≡ write_session st k code (marshal changed.1) lease t.current
        → AttemptCases st code mutate t r n

  module _ {A : Type 0} (st : SessionStore) (code : String) (mutate : Mutation A) (t : Try)
      (r : Result (A × RendezvousSession)) (n : Db) where
    commit-AttemptCases :
        (k : String) (raw : R.Value) (sess : RendezvousSession) (lease : ℕ)
        (m : Result (A × RendezvousSession))
        → key st code ≡ some k
        → get t.read_at k t.watched ≡ some raw
        → usable st code t.clock (unmarshal raw) ≡ some (sess, lease)
        → mutate sess ≡ m
        → commit st k code lease t m ≡ some (r, n)
        → AttemptCases st code mutate t r n
    commit-AttemptCases k raw sess lease (err e) own found use' m h =
        refused_by k raw sess lease e own found use' m (ground arith) (ground arith)
    commit-AttemptCases k raw sess lease (ok changed) own found use' m h =
        elim (Bool-cases t.intact) [
          | inl kept ↦
              committed k raw sess lease changed own found use' m kept (ground (arith, kept))
                (ground (arith, kept))
          | inr lost ↦ absurd (ground (arith, lost))
        ]

    read_back-AttemptCases :
        (k : String) (raw : Option R.Value)
        → key st code ≡ some k
        → get t.read_at k t.watched ≡ raw
        → read_back st k code mutate t raw ≡ some (r, n)
        → AttemptCases st code mutate t r n
    unfolding read_back
    read_back-AttemptCases k none own found h = missing k own found (ground arith) (ground arith)
    read_back-AttemptCases k (some raw) own found h =
        elim (Option-cases (usable st code t.clock (unmarshal raw))) [
          | inl e ↦ elim (Bool-cases t.intact) [
            | inl kept ↦
                removed k raw own found e kept (ground (arith, e, kept)) (ground (arith, e, kept))
            | inr lost ↦ absurd (ground (arith, e, lost))
          ]
          | inr (u, e) ↦
              commit-AttemptCases k raw u.0 u.1 (mutate u.0) own found e refl (ground (arith, e))
        ]

    -- If one pass of modify ends without a retry, then it ends in one of five ways: the identifier
    -- is invalid or there is no session, and nothing is written; what is stored cannot be used and
    -- is removed with its index entry; the mutation refuses, with its error and nothing written; or
    -- its result is written with the refreshed lease, in the key and in the index.
    pub attempt-AttemptCases :
        attempt st code mutate t ≡ some (r, n) → AttemptCases st code mutate t r n
    unfolding attempt
    attempt-AttemptCases h = elim (Option-cases (key st code)) [
      | inl e ↦ bad_code e (ground (arith, e)) (ground (arith, e))
      | inr (k, e) ↦ read_back-AttemptCases k (get t.read_at k t.watched) e refl (ground (arith, e))
    ]

visible-eq-some {ℓ} :
    {V : Type ℓ} (lapsed : ℕ → ℕ → Bool) (now : ℕ) (o : Option (V × Option ℕ)) (value : V)
    → visible lapsed now o ≡ some value
    → (x : Option ℕ) × (o ≡ some (value, x))
visible-eq-some lapsed now none value h = cc
visible-eq-some lapsed now (some (v, none)) value h = (none, cc)
visible-eq-some lapsed now (some (v, some e)) value h =
    (some e, let same : v ≡ value = ground arith in ap (λ w. some (w, some e)) same)

module _ ⦃R : Redis⦄ where
  pub get-entry :
      (now : ℕ) (k : String) (d : R.Db) (value : R.Value)
      → get now k d ≡ some value
      → (x : Option ℕ) × (R.entry d k ≡ some (value, x))
  unfolding get
  get-entry now k d value h = visible-eq-some R.lapsed now (R.entry d k) value h

-- A session that is read can be used if it decodes, has time left, and is the one asked for.
pub usable-eq-some :
    (st : SessionStore) (code : String) (clock : ℕ) (o : Option RendezvousSession)
    (sess : RendezvousSession) (lease : ℕ)
    → usable st code clock o ≡ some (sess, lease)
    → (o ≡ some sess)
      × (refresh_expiry_millis st sess.created_unix clock ≡ some lease)
      × (sess.code ≡ code)
usable-eq-some st code clock none sess lease h = cc
usable-eq-some st code clock (some s) sess lease h =
    elim (Option-cases (refresh_expiry_millis st s.created_unix clock)) [
      | inl e ↦ absurd (ground (arith, e))
      | inr (l, e) ↦
          let same : s ≡ sess = ground (arith, e) in
          let l_is : l ≡ lease = ground (arith, e) in
          (
            ap (λ x. some x) same,
            rw (← same) (e ∙ ap (λ x. some x) l_is),
            ground (arith, e, eq_iff s.code code),
          )
    ]
