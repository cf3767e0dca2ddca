-- ===== src/Examples/Gates.antt =====
-- The limits at concrete inputs.
use wormzy.Prelude.{
  ℕ, ◌+◌, ◌*◌, ◌/◌, ◌≤◌, ◌<◌, String, Text_eq, true, false, contains, Option, some, List, [], ◌∷◌,
  length, leb, ◌≡◌, ◌≢◌, ◌↔◌, refl,
}
use wormzy.Prelude.Int.{pos}
use wormzy.Limits.{
  Counters, MailboxAdmission, RateLimitDecision, allow, retry_after, expiry_millis, new_gate,
  acquire, PollEvent, polls, calls_release, run_polls,
}
use wormzy.Limits.Gate.{Unique, running, opened, run_polls_bounds, acquire_iff}
use wormzy.Limits.Windows.{allow_lem}

-- One counter for every key, which never lapses.
abbrev counters : Counters
counters = record {
  Db = ℕ;
  increment = λ key expiry n. (some (n + 1), n + 1);
  hex_digest = λ identity. identity;
  format_int = λ n. "0";
}

abbrev admission : MailboxAdmission
admission = record {
  prefix = "wormzy";
  sender_claim_limit = 10;
  receiver_ip_limit = 10;
  receiver_session_limit = 5;
  global_claim_limit = 2000;
  authenticated_ip_limit = 600;
  authenticated_global_limit = 20000;
  authenticated_limit = 120;
  window = 60_000_000_000;
}

-- Two polls, of which one ends and is ended again.
abbrev calls : List PollEvent
calls = polls "a" ∷ polls "b" ∷ calls_release 0 ∷ calls_release 0 ∷ []

run_polls_bounds_example :
    ((run_polls (opened (pos 2)) calls).gate.active
      ≡ running (run_polls (opened (pos 2)) calls).releases)
    × Unique (running (run_polls (opened (pos 2)) calls).releases)
    × (length (running (run_polls (opened (pos 2)) calls).releases) ≤ (new_gate (pos 2)).max)
run_polls_bounds_example = run_polls_bounds (pos 2) calls

acquire_iff_example : ((acquire (run_polls (opened (pos 2)) calls).gate "b").0 ≡ true) ↔ (
    ◌≢◌ {A = String} "b" ""
    × (contains (running (run_polls (opened (pos 2)) calls).releases) "b" ≡ false)
    × (length (running (run_polls (opened (pos 2)) calls).releases)
        < (run_polls (opened (pos 2)) calls).gate.max))
acquire_iff_example = acquire_iff (pos 2) calls "b"

-- The eleventh claim of a minute, one second before its end.
abbrev refusal : RateLimitDecision
refusal = record { allowed = false; retry_after = 1_000_000_000 }

allow_lem_example :
    (count : ℕ) × (retry : ℕ) × (◌≡◌ {A = Option ℕ × ℕ} (some 11, 11) (some count, 11))
    × (false ≡ leb count 10)
    × (119_000_000_000 + retry ≡ (119_000_000_000 / 60_000_000_000 + 1) * 60_000_000_000)
    × (retry ≤ expiry_millis retry * 1000000)
    × (false ≡ false → (1_000_000_000 ≡ retry) × (0 < retry) × (retry ≤ 60_000_000_000))
unfolding allow retry_after
allow_lem_example =
    allow_lem ⦃C = counters⦄ admission 119_000_000_000 "claim-send-ip" "192.0.2.1" 10 10 11 refusal
      refl
