-- ===== src/Store/Modify.antt =====
-- internal/transport/session_store.go: `load`, `modify` and what removes a session. Other clients
-- may write between the commands of one call, so a try has the state that GET saw and the state
-- that EXEC meets.
use wormzy.Prelude.{
  ℕ, ◌/◌, String, Bool, ◌!=◌, Text_eq, Option, none, some, List, [], ◌∷◌, if◌then◌else◌,
}
use wormzy.Redis.{Redis, is_some}
use wormzy.Session.{RendezvousSession, Result, ok, err, session_not_found, mailbox_unavailable}
use wormzy.Store.Json.{Json}
use wormzy.Store.Lifetime.{
  SessionStore, key, active_sessions_key, absolute_expiry_millis, refresh_expiry_millis,
}
use wormzy.Store.Create.{get, delete_if_value_script}

-- A change that a caller of `modify` makes to a session, with what its closure hands out, or its
-- refusal.
abbrev pub Mutation : Type 0 → Type 0
Mutation A = RendezvousSession → Result (A × RendezvousSession)

-- The session that was read, with the lease that a write would give it.
abbrev pub usable :
    SessionStore → String → ℕ → Option RendezvousSession → Option (RendezvousSession × ℕ)
usable st code clock none = none
usable st code clock (some sess) = elim (refresh_expiry_millis st sess.created_unix clock) [
  | none ↦ none
  | some lease ↦ if sess.code != code then none else some (sess, lease)
]

module _ ⦃R : Redis⦄ where
  open R use {Db, Value, set, pexpireat, del, zadd, zrem}

  -- One pass of the WATCH loop: GET at `read_at` (in milliseconds) sees `watched`, TIME answers
  -- `clock` (in microseconds), and EXEC meets `current`. `intact` is EXEC's verdict that the
  -- watched key was not written since.
  pub record Try : Type 0 where
    pub watched : Db
    pub read_at : ℕ
    pub clock : ℕ
    pub intact : Bool
    pub current : Db

  -- removeWatchedSession
  unfoldable pub remove_watched :
      {A : Type 0}
      → SessionStore
      → String
      → String
      → Try
      → Option (Result (A × RendezvousSession) × Db)
  remove_watched st k code t =
      if t.intact
      then some (err session_not_found, zrem (active_sessions_key st) code (del k t.current))
      else none

  -- The commands between MULTI and EXEC.
  unfoldable pub write_session : SessionStore → String → String → Value → ℕ → Db → Db
  write_session st k code payload lease d =
      zadd (active_sessions_key st) lease code (pexpireat k lease (set k payload d))

  module _ ⦃J : Json R.Value⦄ where
    open J use {marshal, unmarshal}

    abbrev pub commit :
        {A : Type 0}
        → SessionStore
        → String
        → String
        → ℕ
        → Try
        → Result (A × RendezvousSession)
        → Option (Result (A × RendezvousSession) × Db)
    commit st k code lease t (err e) = some (err e, t.current)
    commit st k code lease t (ok (a, sess)) =
        if t.intact
        then some (ok (a, sess), write_session st k code (marshal sess) lease t.current)
        else none

    unfoldable pub read_back :
        {A : Type 0}
        → SessionStore
        → String
        → String
        → Mutation A
        → Try
        → Option Value
        → Option (Result (A × RendezvousSession) × Db)
    unfolding remove_watched write_session
    read_back st k code mutate t none = some (err session_not_found, t.current)
    read_back st k code mutate t (some raw) = elim (usable st code t.clock (unmarshal raw)) [
      | none ↦ remove_watched st k code t
      | some (sess, lease) ↦ commit st k code lease t (mutate sess)
    ]

    -- One pass of modify's loop: `none` is redis.TxFailedErr.
    unfoldable pub attempt :
        {A : Type 0}
        → SessionStore
        → String
        → Mutation A
        → Try
        → Option (Result (A × RendezvousSession) × Db)
    unfolding read_back get
    attempt st code mutate t = elim (key st code) [
      | none ↦ some (err mailbox_unavailable, t.current)
      | some k ↦ read_back st k code mutate t (get t.read_at k t.watched)
    ]

    -- modify: passes until one is not failed by EXEC; `none` if the listed passes all are.
    unfoldable pub modify :
        {A : Type 0}
        → SessionStore
        → String
        → Mutation A
        → List Try
        → Option (Result (A × RendezvousSession) × Db)
    unfolding attempt
    modify st code mutate [] = none
    modify st code mutate (t ∷ ts) =
        let rest = modify st code mutate ts in
        elim (attempt st code mutate t) [ some r ↦ some r | none ↦ rest ]

    -- load: GET at `read_at`, TIME at `clock`; a value that cannot be used is removed.
    abbrev loaded :
        SessionStore
        → String
        → String
        → ℕ
        → Value
        → Db
        → Option RendezvousSession
        → Result RendezvousSession × Db
    loaded st k code clock raw d none = (
      err session_not_found,
      delete_if_value_script (clock / 1000) k (active_sessions_key st) raw code d,
    )
    loaded st k code clock raw d (some sess) =
        if sess.code != code
        then (
          err session_not_found,
          delete_if_value_script (clock / 1000) k (active_sessions_key st) raw code d,
        )
        else if is_some (absolute_expiry_millis st sess.created_unix clock)
        then (ok sess, d)
        else (
          err session_not_found,
          delete_if_value_script (clock / 1000) k (active_sessions_key st) raw code d,
        )

    unfoldable pub load : SessionStore → String → ℕ → ℕ → Db → Result RendezvousSession × Db
    unfolding get delete_if_value_script
    load st code read_at clock d = elim (key st code) [
      | none ↦ (err mailbox_unavailable, d)
      | some k ↦ elim (get read_at k d) [
        | none ↦ (err session_not_found, d)
        | some raw ↦ loaded st k code clock raw d (unmarshal raw)
      ]
    ]

  -- delete
  unfoldable pub delete : SessionStore → String → Db → Result (Unit {0}) × Db
  delete st code d = elim (key st code) [
    | none ↦ (err mailbox_unavailable, d)
    | some k ↦ (ok tt, zrem (active_sessions_key st) code (del k d))
  ]
