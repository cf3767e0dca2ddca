-- ===== src/Limits.antt =====
-- internal/transport/mailbox_limits.go: the gate of the long polls and the fixed-window limits. A
-- time and a duration are in nanoseconds; 0 stands for a limit or a window that is not positive.
pub mod Gate
pub mod Windows
use Prim.Native.String.{◌++◌}
use wormzy.Prelude.{
  ℕ, zero, suc, ◌+◌, ◌-◌, ◌*◌, ◌/◌, String, Bool, true, false, ◌||◌, ◌==◌, Nat_eq, Text_eq, Option,
  none, some, List, [], ◌∷◌, length, contains, if◌then◌else◌, ltb, leb,
}
use wormzy.Prelude.Int.{ℤ, pos, negsuc}
use wormzy.Role.{send, recv}

pub record LongPollGate : Type 0 where
  pub max : ℕ
  pub active : List String

-- newMailboxLongPollGate
unfoldable pub new_gate : ℤ → LongPollGate
new_gate (negsuc n) = record { max = 1; active = [] }
new_gate (pos n) = record { max = if ltb n 1 then 1 else n; active = [] }

-- acquire, up to the release function that it returns
unfoldable pub acquire : LongPollGate → String → Bool × LongPollGate
acquire g capability_hash =
    if capability_hash == ""
    then (false, g)
    else if contains g.active capability_hash || leb g.max (length g.active)
    then (false, g)
    else (true, record g { active = capability_hash ∷ g.active })

-- delete(g.active, capabilityHash)
unfoldable pub remove : String → List String → List String
remove h [] = []
remove h (x ∷ xs) = if x == h then xs else x ∷ remove h xs

-- A release function, with the state of its `sync.Once`.
pub record Release : Type 0 where
  pub capability_hash : String
  pub called : Bool

-- A call of the release function at a position, newest first: the hash to delete, if it is the
-- function's first call.
unfoldable pub call_once : ℕ → List Release → Option String × List Release
call_once i [] = (none, [])
call_once zero (r ∷ rs) =
    if r.called then (none, r ∷ rs) else (some r.capability_hash, record r { called = true } ∷ rs)
call_once (suc i) (r ∷ rs) = let later = call_once i rs in (later.0, r ∷ later.1)

-- The gate with the release functions that it has handed out.
pub record Polls : Type 0 where
  pub gate : LongPollGate
  pub releases : List Release

unfoldable pub poll : Polls → String → Polls
poll y h =
    let (admitted, g) = acquire y.gate h in
    record {
      gate = g;
      releases =
          if admitted
          then record { capability_hash = h; called = false } ∷ y.releases
          else y.releases;
    }

abbrev deleted : LongPollGate → Option String → LongPollGate
deleted g none = g
deleted g (some h) = record g { active = remove h g.active }

unfoldable pub release : Polls → ℕ → Polls
release y i =
    let (first_call, rs) = call_once i y.releases in
    record { gate = deleted y.gate first_call; releases = rs }

pub data PollEvent : Type 0 where
  polls : String → PollEvent
  calls_release : ℕ → PollEvent

unfoldable pub run_polls : Polls → List PollEvent → Polls
run_polls y [] = y
run_polls y (polls h ∷ es) = run_polls (poll y h) es
run_polls y (calls_release i ∷ es) = run_polls (release y i) es

-- What the limiter uses of Redis, crypto/sha256 and strconv: `increment key expiry` runs
-- mailboxRateIncrementScript, and answers nothing if Redis fails.
pub record Counters : Type 1 where
  pub Db : Type 0
  pub increment : String → ℕ → Db → Option ℕ × Db
  pub hex_digest : String → String
  pub format_int : ℕ → String

pub record RateLimitDecision : Type 0 where
  pub allowed : Bool
  pub retry_after : ℕ

pub data RateError : Type 0 where
  invalid_configuration : RateError
  counter_failed : RateError
  unknown_role : RateError

pub data Decision : Type 0 where
  decided : RateLimitDecision → Decision
  failed : RateError → Decision

pub record MailboxAdmission : Type 0 where
  pub prefix : String
  pub sender_claim_limit : ℕ
  pub receiver_ip_limit : ℕ
  pub receiver_session_limit : ℕ
  pub global_claim_limit : ℕ
  pub authenticated_ip_limit : ℕ
  pub authenticated_global_limit : ℕ
  pub authenticated_limit : ℕ
  pub window : ℕ

-- The time that is left of the window that `now` lies in.
unfoldable pub retry_after : ℕ → ℕ → ℕ
retry_after now window =
    let left = (now / window + 1) * window - now in if left == 0 then 1000000 else left

abbrev pub expiry_millis : ℕ → ℕ
expiry_millis retry = (retry + 1000000 - 1) / 1000000

module _ ⦃C : Counters⦄ where
  -- key
  unfoldable pub rate_key : String → String → String → ℕ → String
  rate_key prefix scope identity bucket =
      prefix
      ++ (":limits:" ++ (scope ++ (":" ++ (C.format_int bucket ++ (":" ++ C.hex_digest identity)))))

  abbrev answer : ℕ → ℕ → Option ℕ → Decision
  answer limit retry none = failed counter_failed
  answer limit retry (some count) =
      if leb count limit
      then decided (record { allowed = true; retry_after = 0 })
      else decided (record { allowed = false; retry_after = retry })

  -- allow
  unfoldable pub allow : MailboxAdmission → ℕ → String → String → ℕ → C.Db → Decision × C.Db
  allow a now scope identity limit d =
      if scope == "" || (identity == "" || (limit == 0 || a.window == 0))
      then (failed invalid_configuration, d)
      else let retry = retry_after now a.window in
        let (count, e) =
          C.increment (rate_key a.prefix scope identity (now / a.window)) (expiry_millis retry) d in
        (answer limit retry count, e)

  -- A limit that passes is followed by the next; one that does not is the answer.
  abbrev and_also : Decision × C.Db → (C.Db → Decision × C.Db) → Decision × C.Db
  and_also (failed e, d) next = (failed e, d)
  and_also (decided r, d) next = let later = next d in if r.allowed then later else (decided r, d)

  abbrev global_claim : MailboxAdmission → ℕ → C.Db → Decision × C.Db
  global_claim a now = allow a now "claim-global" "global" a.global_claim_limit

  -- allowClaim
  unfoldable pub allow_claim :
      MailboxAdmission → ℕ → String → String → String → C.Db → Decision × C.Db
  allow_claim a now role client_ip session_id d =
      if role == send
      then and_also (allow a now "claim-send-ip" client_ip a.sender_claim_limit d)
          (global_claim a now)
      else if role == recv
      then and_also (allow a now "claim-recv-ip" client_ip a.receiver_ip_limit d) (λ e.
        and_also (allow a now "claim-recv-session" session_id a.receiver_session_limit e)
          (global_claim a now))
      else (failed unknown_role, d)

  -- allowAuthenticatedAttempt
  unfoldable pub allow_authenticated_attempt :
      MailboxAdmission → ℕ → String → C.Db → Decision × C.Db
  allow_authenticated_attempt a now client_ip d =
      and_also (allow a now "authenticated-ip" client_ip a.authenticated_ip_limit d)
        (allow a now "authenticated-global" "global" a.authenticated_global_limit)

  -- allowAuthenticated
  unfoldable pub allow_authenticated : MailboxAdmission → ℕ → String → C.Db → Decision × C.Db
  allow_authenticated a now capability_hash =
      allow a now "authenticated-capability" capability_hash a.authenticated_limit
