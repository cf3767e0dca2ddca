-- ===== src/Examples/Sessions.antt =====
-- The session store at concrete inputs, on the Redis in memory.
use wormzy.Prelude.{
  true, ℕ, ◌+◌, ◌*◌, ◌≤◌, ◌<◌, String, some, [], ◌∷◌, length, list_eq, ltb, ◌≡◌, refl, arith,
}
use wormzy.Prelude.Int.{pos}
use wormzy.Redis.{visible}
use wormzy.Session.{RendezvousSession, Result, ok}
use wormzy.Store.Modify.{Try, attempt, write_session}
use wormzy.Store.Passes.{PassCases, attempt-PassCases}
use wormzy.Store.Lifetime.{
  unix, unix_milli, max_int64, absolute_expiry_millis_bounds, SessionStore, key,
  active_sessions_key, effective_max_sessions, lifetime_millis, absolute_expiry_millis,
  refresh_expiry_millis,
}
use wormzy.Store.Create.{create_sender_session, sender_session}
use wormzy.Mailbox.SessionId.{valid_mailbox_session_id}
use wormzy.Store.Trace.{Moment, Reach, here, next, creates, IsLive, late_ends}
use wormzy.Store.Trace.Limits.{live_sessions-le-max, live_session_within_lifetime, IsEmpty}
use wormzy.Encoding.{base64_decode, base64_encode}
use mathlib.Core.Option.{bind}
use wormzy.Examples.Memory.{Memory, purge, empty, memory_redis, memory_json}

-- Ten minutes, two sessions, one hour.
abbrev store : SessionStore
store = record {
  prefix = "wormzy";
  ttl = 600_000_000_000;
  max_sessions = 2;
  max_lifetime = 3_600_000_000_000;
}

abbrev code_one : String
code_one = "mbx2-AAAAAAAAAAAAAAAAAAAAAAAAAAAAAAAAAAAAAAAAAAA"

abbrev before : Moment ⦃R = memory_redis⦄
before = record { now = 0; db = empty }

-- 1,000 seconds after the epoch
abbrev after : Moment ⦃R = memory_redis⦄
after = record {
  now = 1_000_000;
  db =
      (create_sender_session ⦃R = memory_redis⦄ ⦃J = memory_json⦄ store code_one "verifier"
        1_000_000_000 1_000_000_000 empty).1;
}

before-IsEmpty : IsEmpty ⦃R = memory_redis⦄ ⦃J = memory_json⦄ store empty
before-IsEmpty = record { no_session = λ code k own. refl; no_member = refl }

reached : Reach ⦃R = memory_redis⦄ ⦃J = memory_json⦄ store before after
reached =
    next here (
      creates code_one "verifier" 1_000_000_000 1_000_000_000 after (omega arith) (omega arith)
        refl)

after-IsLive : IsLive ⦃R = memory_redis⦄ ⦃J = memory_json⦄ store after code_one
unfolding key create_sender_session valid_mailbox_session_id sender_session absolute_expiry_millis
    active_sessions_key base64_decode base64_encode bind list_eq purge
after-IsLive = (
  "wormzy:sessions:mbx2-AAAAAAAAAAAAAAAAAAAAAAAAAAAAAAAAAAAAAAAAAAA",
  sender_session store code_one "verifier" 1_000_000_000,
  1_600_000,
  refl,
  refl,
  omega arith,
)

live_sessions-le-max_example :
    length (code_one ∷ [])
    ≤ effective_max_sessions store + late_ends ⦃R = memory_redis⦄ ⦃J = memory_json⦄ store reached
live_sessions-le-max_example =
    live_sessions-le-max ⦃R = memory_redis⦄ ⦃J = memory_json⦄ store before after before-IsEmpty
      reached (code_one ∷ []) (tt, tt) (after-IsLive, tt)

live_session_within_lifetime_example :
    (k : String) × (v : RendezvousSession) × (sess : RendezvousSession) × (created : ℕ) × (key store
        code_one
      ≡ some k)
    × (visible (λ now e. ltb e now) after.now (after.db.keys k) ≡ some v)
    × (some v ≡ some sess)
    × (sess.code ≡ code_one)
    × (sess.created_unix ≡ pos created)
    × (after.now < created * 1000 + lifetime_millis store)
live_session_within_lifetime_example =
    live_session_within_lifetime ⦃R = memory_redis⦄ ⦃J = memory_json⦄ store before after
      before-IsEmpty reached code_one after-IsLive

absolute_expiry_millis_bounds_example :
    (c : ℕ) × (pos 1000 ≡ pos c)
    × (4_600_000 ≡ c * 1000 + lifetime_millis store)
    × (unix_milli 2_000_000_000 < 4_600_000)
    × (4_600_000 ≤ max_int64)
    × (c ≤ unix 2_000_000_000)
unfolding absolute_expiry_millis
absolute_expiry_millis_bounds_example =
    absolute_expiry_millis_bounds store (pos 1000) 2_000_000_000 4_600_000 refl

-- A transaction that writes the session back as it is.
abbrev kept : RendezvousSession → Result (Unit {0} × RendezvousSession)
kept sess = ok (tt, sess)

abbrev one_try : Try ⦃R = memory_redis⦄
one_try = record {
  watched = after.db;
  read_at = 1_000_000;
  clock = 1_000_000_000;
  intact = true;
  current = after.db;
}

abbrev stored : RendezvousSession
stored = sender_session store code_one "verifier" 1_000_000_000

abbrev written_again : Memory
written_again =
    write_session ⦃R = memory_redis⦄ store
      "wormzy:sessions:mbx2-AAAAAAAAAAAAAAAAAAAAAAAAAAAAAAAAAAAAAAAAAAA" code_one stored 1_600_000
      after.db

attempt-PassCases_example :
    PassCases ⦃R = memory_redis⦄ ⦃J = memory_json⦄ store code_one kept one_try
      (ok (tt, stored))
      written_again
unfolding attempt key valid_mailbox_session_id create_sender_session sender_session
    absolute_expiry_millis refresh_expiry_millis active_sessions_key base64_decode base64_encode
    bind list_eq purge write_session
attempt-PassCases_example =
    attempt-PassCases ⦃R = memory_redis⦄ ⦃J = memory_json⦄ store code_one kept one_try
      (ok (tt, stored)) written_again refl
