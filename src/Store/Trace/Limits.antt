-- ===== src/Store/Trace/Limits.antt =====
-- What the store promises its operator: bounded capacity and bounded lifetimes.
use wormzy.Prelude.{
  ℕ, ◌+◌, ◌*◌, ◌≤◌, ◌<◌, String, true, none, some, ◌≡◌, refl, arith, List, [], ◌∷◌, All, length,
}
use wormzy.Prelude.Int.{pos}
use wormzy.Redis.{Redis, visible, is_some, AllDistinct}
use wormzy.Session.{RendezvousSession}
use wormzy.Store.Json.{Json}
use wormzy.Store.Lifetime.{
  SessionStore, key, active_sessions_key, effective_max_sessions, lifetime_millis,
}
use wormzy.Store.Trace.{Moment, Reach, IsLive, late_ends}
use wormzy.Store.Trace.Index.{Inv}
use wormzy.Store.Trace.Steps.{Reach-Inv}

module _ ⦃R : Redis⦄ ⦃J : Json R.Value⦄ (st : SessionStore) where
  open R use {Db, entry, score, zcard, zcard_members}
  open J use {unmarshal}

  -- A state before the store's first session.
  pub record IsEmpty (d : Db) : Type 0 where
    pub no_session : (code k : String) → key st code ≡ some k → entry d k ≡ none
    pub no_member : zcard (active_sessions_key st) d ≡ 0

  IsEmpty-Inv : (now : ℕ) (d : Db) → IsEmpty d → Inv st 0 now d
  IsEmpty-Inv now d h = record {
    indexed = λ code k v x own there. absurd (ground (arith, h.no_session code k own));
    bounded = omega (arith, h.no_member);
  }

  live_members :
      (m : Moment) (codes : List String) (extra : ℕ)
      → Inv st extra m.now m.db
      → All (IsLive st m) codes
      → All (λ code. is_some (score m.db (active_sessions_key st) code) ≡ true) codes
  live_members m [] extra v h = tt
  live_members m (c ∷ cs) extra v h =
      let (k, value, e, own, there, ahead) = h.0 in
      let i = v.indexed c k value (some e) own there in
      let d : e ≡ i.deadline = ground (arith, i.has_deadline) in
      (rw (i.in_index (omega (arith, d))) refl, live_members m cs extra v h.1)

  module _ (m n : Moment) (empty : IsEmpty m.db) (r : Reach st m n) where
    -- From a Redis without sessions, after any interleaving of creations, transactions that keep a
    -- session's code and creation time, removals, deletions and waiting, any list of distinct codes
    -- whose sessions have their deadline ahead is at most as long as the store's session limit plus
    -- the number of transactions that ended in the very millisecond of their key's deadline. A
    -- transaction that succeeds ends as Redis promises for WATCH: its key is unwritten, and its
    -- deadline has not passed.
    pub live_sessions-le-max :
        (codes : List String)
        → AllDistinct codes
        → All (IsLive st n) codes
        → length codes ≤ effective_max_sessions st + late_ends st r
    live_sessions-le-max codes d h =
        let v = Reach-Inv st m n r (IsEmpty-Inv m.now m.db empty) in
        omega (
          arith,
          v.bounded,
          zcard_members (active_sessions_key st) n.db codes d
              (live_members n codes (late_ends st r) v h),
        )

    -- In the same runs, a session whose deadline is ahead decodes to the session of its code, and
    -- the time is before its own creation time plus the store's lifetime, however often its lease
    -- was refreshed.
    pub live_session_within_lifetime :
        (code : String)
        → IsLive st n code
        → (k : String) × (v : R.Value) × (sess : RendezvousSession) × (created : ℕ) × (key st code
            ≡ some k)
          × (visible R.lapsed n.now (entry n.db k) ≡ some v)
          × (unmarshal v ≡ some sess)
          × (sess.code ≡ code)
          × (sess.created_unix ≡ pos created)
          × (n.now < created * 1000 + lifetime_millis st)
    live_session_within_lifetime code h =
        let v = Reach-Inv st m n r (IsEmpty-Inv m.now m.db empty) in
        let (k, value, e, own, there, ahead) = h in
        let i = v.indexed code k value (some e) own there in
        let d : e ≡ i.deadline = ground (arith, i.has_deadline) in
        let l = i.lawful in
        (
          k,
          value,
          l.sess,
          l.created,
          own,
          rw (there, R.lapsed_before n.now e ahead) refl,
          l.decodes,
          l.own,
          l.since,
          omega (arith, l.within, d),
        )
