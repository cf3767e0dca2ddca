-- ===== src/Store/Trace/Steps.antt =====
-- Every call keeps the index, whatever other clients do in between.
use wormzy.Prelude.{
  ℕ, ◌+◌, ◌*◌, ◌≤◌, ◌⊎◌, ◌==◌, if◌then◌else◌, String, true, Nat_eq, Text_eq, Option, some, ◌≡◌,
  refl, ap, ◌∙◌, inl, inr, arith, Bool-cases, Option-cases,
}
use wormzy.Prelude.Int.{pos}
use wormzy.Redis.{Redis, is_some}
use wormzy.Session.{RendezvousSession, Result}
use wormzy.Store.Json.{Json, compacted}
use wormzy.Store.Lifetime.{
  SessionStore, key, active_sessions_key, effective_max_sessions, lifetime_millis, unix_milli,
  absolute_expiry_millis, absolute_expiry_millis_bounds, refresh_expiry_millis,
  refresh_expiry_millis_bounds,
}
use wormzy.Store.Create.{
  sender_session, create_sender_session, created, get, delete_if_value_script,
}
use wormzy.Store.Modify.{Mutation, Try, write_session, delete}
use wormzy.Store.Effects.{CreateCases, refused, full, written, create_script-CreateCases}
use wormzy.Store.Attempt.{
  AttemptCases, bad_code, missing, removed, refused_by, committed, attempt-AttemptCases, get-entry,
  usable-eq-some,
}
use wormzy.Store.Trace.{
  KeepsIdentity, Moment, IsWatched, Step, waits, creates, modifies, drops, deletes, Reach, here,
  next, late_step, late_ends, at_deadline,
}
use wormzy.Store.Trace.Index.{Inv, IsLawful, Inv-later, purge-Inv, removed-Inv}
use wormzy.Store.Trace.Writes.{write_session-Inv, created_db-Inv}

module _ ⦃R : Redis⦄ ⦃J : Json R.Value⦄ (st : SessionStore) where
  open R use {Db, entry, score}
  open J use {unmarshal, marshal, unmarshal-marshal, compact}

  -- What is written of a session is lawful up to the session's absolute deadline.
  marshal-IsLawful :
      (code : String) (sess : RendezvousSession) (c lease : ℕ)
      → sess.code ≡ code
      → sess.created_unix ≡ pos c
      → lease ≤ c * 1000 + lifetime_millis st
      → IsLawful st code (marshal sess) lease
  marshal-IsLawful code sess c lease own since within = record {
    sess = compacted compact sess;
    created = c;
    decodes = unmarshal-marshal sess;
    own = own;
    since = since;
    within = within;
  }

  Inv-more : (extra more now : ℕ) (d : Db) → Inv st extra now d → Inv st (extra + more) now d
  Inv-more extra more now d v = record { indexed = v.indexed; bounded = omega (arith, v.bounded) }

  module _ (extra now : ℕ) (d : Db) (v : Inv st extra now d) where
    CreateCases-Inv :
        (k code capability_hash : String) (asked absolute : ℕ) (n : Db)
        → key st code ≡ some k
        → absolute_expiry_millis st
            (sender_session st code capability_hash asked).created_unix
            asked
          ≡ some absolute
        → CreateCases st now k code
            (marshal (sender_session st code capability_hash asked))
            (effective_max_sessions st)
            absolute
            d
            n
        → Inv st extra now n
    CreateCases-Inv k code cap asked absolute n own a (refused e) = rw e v
    CreateCases-Inv k code cap asked absolute n own a (full e) = rw e (purge-Inv st extra now d v)
    CreateCases-Inv k code cap asked absolute n own a (written expires ahead capped room gone e) =
        let (c, since, at, _, _, _) = absolute_expiry_millis_bounds st _ asked absolute a in
        rw e (
          created_db-Inv st extra now d v code k _ own expires ahead
            (marshal-IsLawful code (sender_session st code cap asked) c expires
              (unfold sender_session in refl) since (omega arith))
            room)

    -- A pass of `modify` whose EXEC succeeds found the session in the index, or it was the last
    -- millisecond.
    commit-Inv :
        (code k : String) (raw : R.Value) (x : Option ℕ) (sess : RendezvousSession)
        (lease clock : ℕ) (changed : RendezvousSession)
        → key st code ≡ some k
        → entry d k ≡ some (raw, x)
        → ((e : ℕ) → x ≡ some e → now ≤ e)
        → unmarshal raw ≡ some sess
        → refresh_expiry_millis st sess.created_unix clock ≡ some lease
        → sess.code ≡ code
        → changed.code ≡ sess.code
        → changed.created_unix ≡ sess.created_unix
        → Inv st
            (extra + at_deadline st code now d)
            now
            (write_session st k code (marshal changed) lease d)
    commit-Inv code k raw x sess lease clock changed own found ahead decodes fresh is_own same_code
          same_created =
        let i = v.indexed code k raw x own found in
        let (a, absolute, _, lease_is) = refresh_expiry_millis_bounds st _ clock lease fresh in
        let (c, since, at, _, _, _) = absolute_expiry_millis_bounds st _ clock a absolute in
        let late : at_deadline st code now d ≡ (if now == i.deadline then 1 else 0) =
          ground (arith, own, found, i.has_deadline) in
        let there : (is_some (score d (active_sessions_key st) code) ≡ true)
            ⊎ (at_deadline st code now d ≡ 1) =
          elim (Bool-cases (now == i.deadline)) [
            | inl last ↦ inr (ground (arith, late, last))
            | inr before ↦
                inl (rw (i.in_index (ground (arith, before, ahead i.deadline i.has_deadline))) refl)
          ] in
        write_session-Inv st extra now d v code k (marshal changed) own lease
          (at_deadline st code now d)
          (marshal-IsLawful code changed c lease (same_code ∙ is_own) (same_created ∙ since)
            (omega arith))
          there

    create-Inv :
        (code capability_hash : String) (asked at : ℕ)
        → now ≡ unix_milli at
        → Inv st extra now (create_sender_session st code capability_hash asked at d).1
    create-Inv code cap asked at e = elim (Option-cases (key st code)) [
      | inl none' ↦ unfold create_sender_session in rw (none', create_sender_session) v
      | inr (k, own) ↦
          let sess = sender_session st code cap asked in
          elim (Option-cases (absolute_expiry_millis st sess.created_unix asked)) [
            | inl late ↦ unfold create_sender_session in rw (own, late, create_sender_session) v
            | inr (absolute, a) ↦
                unfold create_sender_session in
                rw (own, a, create_sender_session)
                  (rw (created-state sess _) (
                    CreateCases-Inv k code cap asked absolute _ own a (
                      rw e (
                        create_script-CreateCases st at k (effective_max_sessions st) (marshal sess)
                          _ code absolute d))))
          ]
    ]
      where
        created-state :
            (sess : RendezvousSession) (reply : ℕ × Db) → (created sess reply).1 ≡ reply.1
        created-state sess (reply, n) = ground arith

    attempt-Inv :
        {A : Type 0} (code : String) (mutate : Mutation A) (t : Try)
        (r : Result (A × RendezvousSession)) (n : Db)
        → KeepsIdentity mutate
        → t.current ≡ d
        → IsWatched st code now t
        → AttemptCases st code mutate t r n
        → Inv st (extra + at_deadline st code now d) now n
    attempt-Inv code mutate t r n keeps at w (bad_code _ _ e) =
        rw (e, at) (Inv-more extra _ now d v)
    attempt-Inv code mutate t r n keeps at w (missing k _ _ _ e) =
        rw (e, at) (Inv-more extra _ now d v)
    attempt-Inv code mutate t r n keeps at w (removed k raw own _ _ _ _ e) =
        rw (e, at) (Inv-more extra _ now _ (removed-Inv st extra now d v code k own))
    attempt-Inv code mutate t r n keeps at w (refused_by k raw sess lease x _ _ _ _ _ e) =
        rw (e, at) (Inv-more extra _ now d v)
    attempt-Inv code mutate t r n keeps at w
          (committed k raw sess lease changed own found use' m kept _ e) =
        let (x, seen) = get-entry t.read_at k t.watched raw found in
        let there : entry d k ≡ some (raw, x) = rw (← at) (w.unwritten k own kept ∙ seen) in
        let (decodes, fresh, is_own) =
          usable-eq-some st code t.clock (unmarshal raw) sess lease use' in
        rw (e, at)
          (commit-Inv code k raw x sess lease t.clock changed.1 own there
            (λ f f_is.
              w.unexpired k raw f own kept
                (w.unwritten k own kept ∙ seen ∙ ap (λ y. some (raw, y)) f_is))
            decodes fresh is_own (keeps sess changed.0 changed.1 m).0
            (keeps sess changed.0 changed.1 m).1)

    drop-Inv :
        (code k : String) (expected : R.Value) (at : ℕ)
        → key st code ≡ some k
        → Inv st extra now (delete_if_value_script at k (active_sessions_key st) expected code d)
    unfolding delete_if_value_script
    drop-Inv code k expected at own = elim (Option-cases (get at k d)) [
      | inl gone ↦ rw (gone, delete_if_value_script) v
      | inr (value, there) ↦
          rw (there, delete_if_value_script)
            (elim (Bool-cases (R.same_value value expected)) [
              | inl same ↦ rw same (removed-Inv st extra now d v code k own)
              | inr other ↦ rw other v
            ])
    ]

    delete-Inv : (code : String) → Inv st extra now (delete st code d).1
    unfolding delete
    delete-Inv code = elim (Option-cases (key st code)) [
      | inl e ↦ rw (e, delete) v
      | inr (k, own) ↦ rw (own, delete) (removed-Inv st extra now d v code k own)
    ]

  Step-Inv :
      (m n : Moment) (extra : ℕ) (s : Step st m n)
      → Inv st extra m.now m.db
      → Inv st (extra + late_step st s) n.now n.db
  Step-Inv m _ extra (waits later h) v =
      Inv-more extra 0 later m.db (Inv-later st extra m.now later m.db h v)
  Step-Inv m n extra (creates code cap asked at _ before later e) v = Inv-more extra 0 n.now n.db (
      rw e (
        create-Inv extra (unix_milli at) m.db
          (Inv-later st extra m.now (unix_milli at) m.db later v) code cap asked at refl))
  Step-Inv m n extra (modifies A code mutate t r _ keeps later at w done) v =
      attempt-Inv extra n.now m.db (Inv-later st extra m.now n.now m.db later v) code mutate t r
        n.db keeps at w (attempt-AttemptCases st code mutate t r n.db done)
  Step-Inv m _ extra (drops code k expected at own) v =
      Inv-more extra 0 m.now _ (drop-Inv extra m.now m.db v code k expected at own)
  Step-Inv m _ extra (deletes code) v =
      Inv-more extra 0 m.now _ (delete-Inv extra m.now m.db v code)

  pub Reach-Inv :
      (m n : Moment) (r : Reach st m n) → Inv st 0 m.now m.db → Inv st (late_ends st r) n.now n.db
  Reach-Inv m _ here v = v
  Reach-Inv m _ (next {n = p} {o = q} r s) v = Step-Inv p q (late_ends st r) s (Reach-Inv m p r v)
