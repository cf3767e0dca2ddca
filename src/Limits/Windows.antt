-- ===== src/Limits/Windows.antt =====
-- internal/transport/mailbox_limits.go: the answers of the fixed-window limits.
use native.Mathlib.Nat.{div-add-mod', mod-lt, add-mul}
use wormzy.Prelude.{
  ℕ, ◌+◌, ◌*◌, ◌/◌, ◌%◌, ◌≤◌, ◌<◌, String, false, ◌||◌, ◌==◌, Nat_eq, Text_eq, some, ◌≡◌, arith,
  leb, inl, inr, Bool-cases, Option-cases,
}
use wormzy.Limits.{
  Counters, MailboxAdmission, RateLimitDecision, decided, retry_after, expiry_millis, rate_key,
  allow,
}

retry_after_bounds :
    (now window : ℕ)
    → 0 < window
    → (0 < retry_after now window)
      × (retry_after now window ≤ window)
      × (now + retry_after now window ≡ (now / window + 1) * window)
unfolding retry_after
retry_after_bounds now window h =
    let whole : now / window * window + now % window ≡ now = div-add-mod' now window in
    let part : now % window < window = mod-lt now h in
    let next : (now / window + 1) * window ≡ now / window * window + window =
      omega (arith, add-mul (now / window) 1 window) in
    (
      ground (arith, whole, part, next),
      ground (arith, whole, part, next),
      ground (arith, whole, part, next),
    )

module _ ⦃C : Counters⦄ (a : MailboxAdmission) (now : ℕ) (scope identity : String) (limit : ℕ) where
  -- If the limiter decides, it has counted the request once under the key of the window that the
  -- time lies in, and allows it exactly when the count is within the limit; the key is kept at
  -- least until the next window starts; and a refusal's delay is positive, at most one window, and
  -- ends when the next window starts.
  pub allow_lem :
      (d e : C.Db) (r : RateLimitDecision)
      → allow a now scope identity limit d ≡ (decided r, e)
      → (count : ℕ) × (retry : ℕ) × (C.increment
            (rate_key a.prefix scope identity (now / a.window))
            (expiry_millis retry)
            d
          ≡ (some count, e))
        × (r.allowed ≡ leb count limit)
        × (now + retry ≡ (now / a.window + 1) * a.window)
        × (retry ≤ expiry_millis retry * 1000000)
        × (r.allowed ≡ false → (r.retry_after ≡ retry) × (0 < retry) × (retry ≤ a.window))
  allow_lem d e r h =
      elim (Bool-cases (scope == "" || (identity == "" || (limit == 0 || a.window == 0)))) [
        | inl bad ↦ absurd (unfold allow in ground (arith, bad))
        | inr good ↦
            let retry = retry_after now a.window in
            let (low, high, start) = retry_after_bounds now a.window (ground (arith, good)) in
            let run =
              C.increment (rate_key a.prefix scope identity (now / a.window)) (expiry_millis retry)
                d in
            elim (Option-cases run.0) [
              | inl e0 ↦ absurd (unfold allow in ground (arith, good, e0))
              | inr (count, e0) ↦
                  let db : run.1 ≡ e = unfold allow in ground (arith, good, e0) in
                  (
                    count,
                    retry,
                    (λ i. (e0 i, db i)),
                    unfold allow in ground (arith, good, e0),
                    start,
                    omega arith,
                    λ refused. (unfold allow in ground (arith, good, e0), low, high),
                  )
            ]
      ]
