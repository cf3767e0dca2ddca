-- ===== src/Store/Create.antt =====
-- internal/transport/session_store.go: `newSessionAt`, the two Redis scripts and
-- `createSenderSession`. A script runs at one time; the clock that the caller reads before it may
-- be earlier.
use wormzy.Prelude.{
  ℕ, ◌+◌, ◌-◌, ◌*◌, ◌/◌, ◌%◌, ◌^◌, String, ◌==◌, Nat_eq, Text_eq, Option, none, some, [],
  if◌then◌else◌, ltb, leb, min, min,
}
use wormzy.Prelude.Int.{pos}
use wormzy.Redis.{Redis, visible, is_some}
use wormzy.Role.{send}
use wormzy.Session.{
  RendezvousSession, SessionPeer, Result, ok, err, mailbox_capacity, mailbox_unavailable,
}
use wormzy.Store.Json.{Json}
use wormzy.Store.Lifetime.{
  SessionStore, key, active_sessions_key, effective_max_sessions, absolute_expiry_millis, unix,
}

unfoldable pub new_session_at : String → ℕ → ℕ → RendezvousSession
new_session_at code ttl created = record {
  code = code;
  created_unix = pos (unix created);
  ttl_seconds = ttl / 1000000000;
  sender = none;
  receiver = none;
  pending = [];
  next_side_id = 1;
  stats = none;
  stats_by_role = [];
}

-- A peer of the session that claims a role, under the session's next number (a uint32).
unfoldable pub new_peer : RendezvousSession → String → String → ℕ → SessionPeer
new_peer sess role capability_hash now = record {
  id = sess.next_side_id;
  role = role;
  capability_hash = capability_hash;
  info = none;
  registered_at = now;
  last_update = now;
}

abbrev pub next_id : RendezvousSession → ℕ
next_id sess = (sess.next_side_id + 1) % 2 ^ 32

-- The session that createSenderSession writes.
unfoldable pub sender_session : SessionStore → String → String → ℕ → RendezvousSession
unfolding new_session_at new_peer
sender_session st code capability_hash now =
    let sess = new_session_at code st.ttl now in
    record sess {
      sender = some (new_peer sess send capability_hash (unix now));
      next_side_id = next_id sess;
    }

module _ ⦃R : Redis⦄ where
  open R use {
    Db, Value, same_value, entry, lapsed, set_px, del, zadd, zrem, zcard, zremrangebyscore,
  }

  -- GET
  unfoldable pub get : ℕ → String → Db → Option Value
  get now k d = visible lapsed now (entry d k)

  -- mailboxSessionCreateScript, with its reply
  unfoldable pub create_script : ℕ → String → String → ℕ → Value → ℕ → String → ℕ → Db → ℕ × Db
  unfolding get
  create_script now k active max payload ttl code absolute d =
      let now_ms = now / 1000000 * 1000 + now % 1000000 / 1000 in
      let purged = zremrangebyscore active now_ms d in
      let expires = min (now_ms + ttl) absolute in
      if is_some (get now_ms k d)
      then (2, d)
      else if leb max (zcard active purged)
      then (0, purged)
      else if ltb (expires - now_ms) 1
      then (3, purged)
      else if is_some (get now_ms k purged)
      then (2, purged)
      else (1, zadd active expires code (set_px now_ms k payload (expires - now_ms) purged))

  -- mailboxSessionDeleteIfValueScript
  unfoldable pub delete_if_value_script : ℕ → String → String → Value → String → Db → Db
  unfolding get
  delete_if_value_script now k active expected code d = elim (get now k d) [
    | none ↦ d
    | some value ↦ if same_value value expected then zrem active code (del k d) else d
  ]

  -- The reply as createSenderSession reads it; `none` is a session that exists.
  abbrev pub created : RendezvousSession → ℕ × Db → Result (Option RendezvousSession) × Db
  created sess (reply, d) =
      if reply == 0
      then (err mailbox_capacity, d)
      else if reply == 1
      then (ok (some sess), d)
      else if reply == 2
      then (ok none, d)
      else (err mailbox_unavailable, d)

  module _ ⦃J : Json R.Value⦄ where
    open J use {marshal}

    -- createSenderSession: the clock is read at `asked`, the script runs at `now`.
    unfoldable pub create_sender_session :
        SessionStore → String → String → ℕ → ℕ → Db → Result (Option RendezvousSession) × Db
    unfolding create_script
    create_sender_session st code capability_hash asked now d = elim (key st code) [
      | none ↦ (err mailbox_unavailable, d)
      | some k ↦
          let sess = sender_session st code capability_hash asked in
          let ttl = if ltb (st.ttl / 1000000) 1 then 1 else st.ttl / 1000000 in
          elim (absolute_expiry_millis st sess.created_unix asked) [
            | none ↦ (err mailbox_unavailable, d)
            | some absolute ↦ created sess (
                create_script now k (active_sessions_key st) (effective_max_sessions st)
                  (marshal sess) ttl code absolute d)
          ]
    ]
