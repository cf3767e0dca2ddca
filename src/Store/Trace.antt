-- ===== src/Store/Trace.antt =====
-- Any clients of the store, interleaved: each step is what one call does to Redis at one time.
pub mod Index
pub mod Writes
pub mod Steps
pub mod Limits
use wormzy.Prelude.{
  ℕ, ◌+◌, ◌/◌, ◌≤◌, ◌<◌, String, true, Option, none, some, ◌≡◌, ◌==◌, Nat_eq, if◌then◌else◌,
}
use wormzy.Redis.{Redis}
use wormzy.Session.{RendezvousSession, Result, ok}
use wormzy.Store.Json.{Json}
use wormzy.Store.Lifetime.{SessionStore, key, active_sessions_key, unix_milli}
use wormzy.Store.Create.{create_sender_session, delete_if_value_script}
use wormzy.Store.Modify.{Mutation, Try, attempt, delete}

-- A mutation that leaves a session's code and creation time as they are.
abbrev pub KeepsIdentity : {A : Type 0} → Mutation A → Type 0
KeepsIdentity {A} mutate =
    (s : RendezvousSession) (a : A) (t : RendezvousSession)
    → mutate s ≡ ok (a, t)
    → (t.code ≡ s.code) × (t.created_unix ≡ s.created_unix)

module _ ⦃R : Redis⦄ where
  open R use {Db, entry}

  -- Redis at a time, in milliseconds.
  pub record Moment : Type 0 where
    pub now : ℕ
    pub db : Db

  -- What Redis guarantees of a try that ends at `now`: TIME was asked no later; if EXEC succeeds,
  -- then the watched key is as GET saw it, and its deadline has not passed.
  pub record IsWatched (st : SessionStore) (code : String) (now : ℕ) (t : Try) : Type 0 where
    pub clock_before : unix_milli t.clock ≤ now
    pub unwritten :
        (k : String)
        → key st code ≡ some k
        → t.intact ≡ true
        → entry t.current k ≡ entry t.watched k
    pub unexpired :
        (k : String) (v : R.Value) (e : ℕ)
        → key st code ≡ some k
        → t.intact ≡ true
        → entry t.current k ≡ some (v, some e)
        → now ≤ e

  -- One, if the session's key has this very time as its deadline.
  abbrev pub at_deadline : SessionStore → String → ℕ → Db → ℕ
  at_deadline st code now d = elim (key st code) [
    | none ↦ 0
    | some k ↦ elim (entry d k) [
      | none ↦ 0
      | some (v, x) ↦ elim x [ none ↦ 0 | some e ↦ if now == e then 1 else 0 ]
    ]
  ]

  module _ ⦃J : Json R.Value⦄ (st : SessionStore) where
    pub data Step (m : Moment) : Moment → Type 1 where
      waits : (later : ℕ) → m.now ≤ later → Step m (record { now = later; db = m.db })
      creates :
          (code capability_hash : String) (asked at : ℕ) (n : Moment)
          → asked ≤ at
          → m.now ≤ unix_milli at
          → n ≡ record {
            now = unix_milli at;
            db = (create_sender_session st code capability_hash asked at m.db).1;
          }
          → Step m n
      modifies :
          (A : Type 0) (code : String) (mutate : Mutation A) (t : Try)
          (r : Result (A × RendezvousSession)) (n : Moment)
          → KeepsIdentity mutate
          → m.now ≤ n.now
          → t.current ≡ m.db
          → IsWatched st code n.now t
          → attempt st code mutate t ≡ some (r, n.db)
          → Step m n
      drops :
          (code k : String) (expected : R.Value) (now : ℕ)
          → key st code ≡ some k
          → Step m (record {
            now = m.now;
            db = delete_if_value_script now k (active_sessions_key st) expected code m.db;
          })
      deletes : (code : String) → Step m (record { now = m.now; db = (delete st code m.db).1 })

    pub data Reach (m : Moment) : Moment → Type 1 where
      here : Reach m m
      next : {n o : Moment} → Reach m n → Step n o → Reach m o

    abbrev pub late_step : {m n : Moment} → Step m n → ℕ
    late_step (waits later h) = 0
    late_step (creates code cap asked at n before later e) = 0
    late_step {m = m} (modifies A code mutate t r n keeps later at w done) =
        at_deadline st code n.now m.db
    late_step (drops code k expected now own) = 0
    late_step (deletes code) = 0

    -- The transactions of a run that end in the millisecond of their key's deadline. Redis still has
    -- the key then, but a creation that came before in that millisecond has taken it from the index.
    abbrev pub late_ends : {m n : Moment} → Reach m n → ℕ
    late_ends here = 0
    late_ends (next r s) = late_ends r + late_step s

    -- A session that a client can still use, in a state at a time.
    abbrev pub IsLive : Moment → String → Type 0
    IsLive m code =
        (k : String) × (v : R.Value) × (e : ℕ) × (key st code ≡ some k)
        × (entry m.db k ≡ some (v, some e))
        × (m.now < e)
