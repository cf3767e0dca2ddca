-- ===== src/Limits/Gate.antt =====
-- internal/transport/mailbox_limits.go: the long-poll gate over any calls.
use wormzy.Prelude.{
  ℕ, zero, suc, ◌≤◌, ◌<◌, String, true, false, ◌==◌, Text_eq, eq_iff, Option, none, some, List, [],
  ◌∷◌, length, contains, ◌≡◌, ◌≢◌, ◌↔◌, refl, ap, arith, if◌then◌else◌, inl, inr, Bool-cases,
  Option-cases, sym, subst, ◌∙◌,
}
use wormzy.Prelude.Int.{ℤ, pos, negsuc}
use wormzy.Limits.{
  LongPollGate, new_gate, acquire, remove, Release, call_once, Polls, poll, release, PollEvent,
  polls, calls_release, run_polls,
}

-- The hashes of the polls that run: their release functions were not called yet.
abbrev pub running : List Release → List String
running [] = []
running (r ∷ rs) = if r.called then running rs else r.capability_hash ∷ running rs

-- Every entry stands once.
abbrev pub Unique : List String → Type 0
Unique [] = Unit
Unique (x ∷ xs) = (contains xs x ≡ false) × Unique xs

contains-remove :
    (h x : String) (xs : List String) → contains xs x ≡ false → contains (remove h xs) x ≡ false
unfolding remove
contains-remove h x [] n = refl
contains-remove h x (y ∷ ys) n = ground (arith, contains-remove h x ys)

remove-Unique : (h : String) (xs : List String) → Unique xs → Unique (remove h xs)
unfolding remove
remove-Unique h [] u = tt
remove-Unique h (x ∷ xs) (n, u) = elim (Bool-cases (x == h)) [
  | inl e ↦ rw e u
  | inr e ↦ rw e (contains-remove h x xs n, remove-Unique h xs u)
]

length-remove-le : (h : String) (xs : List String) → length (remove h xs) ≤ length xs
unfolding remove
length-remove-le h [] = omega arith
length-remove-le h (x ∷ xs) = ground (arith, length-remove-le h xs)

call_once_runs :
    (i : ℕ) (rs : List Release) (h : String)
    → (call_once i rs).0 ≡ some h
    → contains (running rs) h ≡ true
unfolding call_once
call_once_runs i [] h e = absurd (ground arith)
call_once_runs zero (r ∷ rs) h e = ground (arith, eq_iff h h, eq_iff r.capability_hash h)
call_once_runs (suc i) (r ∷ rs) h e = ground (arith, call_once_runs i rs h)

abbrev less : Option String → List String → List String
less none xs = xs
less (some h) xs = remove h xs

Unique-later : (r : Release) (rs : List Release) → Unique (running (r ∷ rs)) → Unique (running rs)
Unique-later r rs u = elim (Bool-cases r.called) [
  | inl c ↦ subst (λ b. Unique (if b then running rs else r.capability_hash ∷ running rs)) c u
  | inr c ↦ (subst (λ b. Unique (if b then running rs else r.capability_hash ∷ running rs)) c u).1
]

not_running_again :
    (r : Release) (rs : List Release)
    → Unique (running (r ∷ rs))
    → r.called ≡ false
    → contains (running rs) r.capability_hash ≡ false
not_running_again r rs u c =
    (subst (λ b. Unique (if b then running rs else r.capability_hash ∷ running rs)) c u).0

-- A call changes nothing, or takes its own poll off those that run.
call_once-running :
    (i : ℕ) (rs : List Release)
    → Unique (running rs)
    → less (call_once i rs).0 (running rs) ≡ running (call_once i rs).1
unfolding call_once remove
call_once-running i [] u = refl
call_once-running zero (r ∷ rs) u = ground (arith, eq_iff r.capability_hash r.capability_hash)
call_once-running (suc i) (r ∷ rs) u =
    let later = call_once-running i rs (Unique-later r rs u) in
    elim (Option-cases (call_once i rs).0) [
      | inl e ↦ ground (arith, e, later)
      | inr (h, e) ↦ elim (Bool-cases r.called) [
        | inl c ↦ ground (arith, c, e, later)
        | inr c ↦ ground (
          arith,
          c,
          e,
          later,
          call_once_runs i rs h e,
          not_running_again r rs u c,
          eq_iff r.capability_hash h,
        )
      ]
    ]

-- The gate holds the hashes of the polls that run, each once, within its limit.
pub record IsGated (max : ℕ) (y : Polls) : Type 0 where
  pub limit : y.gate.max ≡ max
  pub tracks : y.gate.active ≡ running y.releases
  pub unique : Unique y.gate.active
  pub bounded : length y.gate.active ≤ max

poll-IsGated : (max : ℕ) (y : Polls) (h : String) → IsGated max y → IsGated max (poll y h)
unfolding poll acquire
poll-IsGated max y h v = elim (Bool-cases (acquire y.gate h).0) [
  | inl a ↦ record {
    limit = ground (arith, a, v.limit);
    tracks = ground (arith, a, v.tracks);
    unique =
        let grown : (poll y h).gate.active ≡ h ∷ y.gate.active = ground (arith, a) in
        subst Unique (sym grown) (ground (arith, a), v.unique);
    bounded = ground (arith, a, v.limit, v.bounded);
  }
  | inr a ↦ record {
    limit = ground (arith, a, v.limit);
    tracks = ground (arith, a, v.tracks);
    unique =
        let same : (poll y h).gate.active ≡ y.gate.active = ground (arith, a) in
        subst Unique (sym same) v.unique;
    bounded = ground (arith, a, v.bounded);
  }
]

release-IsGated : (max : ℕ) (y : Polls) (i : ℕ) → IsGated max y → IsGated max (release y i)
unfolding release
release-IsGated max y i v = elim (Option-cases (call_once i y.releases).0) [
  | inl e ↦
      let same : (release y i).gate ≡ y.gate = ground (arith, e) in
      record {
        limit = ap (λ (g : LongPollGate). g.max) same ∙ v.limit;
        tracks = ap (λ (g : LongPollGate). g.active) same ∙ still none e;
        unique = subst (λ (g : LongPollGate). Unique g.active) (sym same) v.unique;
        bounded = subst (λ (g : LongPollGate). length g.active ≤ max) (sym same) v.bounded;
      }
  | inr (h, e) ↦
      let gone : (release y i).gate ≡ record y.gate { active = remove h y.gate.active } =
        ground (arith, e) in
      record {
        limit = ap (λ (g : LongPollGate). g.max) gone ∙ v.limit;
        tracks = ap (λ (g : LongPollGate). g.active) gone ∙ still (some h) e;
        unique =
            subst (λ (g : LongPollGate). Unique g.active) (sym gone)
              (remove-Unique h y.gate.active v.unique);
        bounded =
            subst (λ (g : LongPollGate). length g.active ≤ max) (sym gone)
              (omega (arith, length-remove-le h y.gate.active, v.bounded));
      }
]
  where
    still :
        (who : Option String)
        → (call_once i y.releases).0 ≡ who
        → less who y.gate.active ≡ running (call_once i y.releases).1
    still who e =
        ap (λ x. less x y.gate.active) (sym e)
        ∙ ap (λ xs. less (call_once i y.releases).0 xs) v.tracks
        ∙ call_once-running i y.releases (subst Unique v.tracks v.unique)

run_polls-IsGated :
    (max : ℕ) (y : Polls) (es : List PollEvent) → IsGated max y → IsGated max (run_polls y es)
unfolding run_polls
run_polls-IsGated max y [] v = v
run_polls-IsGated max y (polls h ∷ es) v =
    run_polls-IsGated max (poll y h) es (poll-IsGated max y h v)
run_polls-IsGated max y (calls_release i ∷ es) v =
    run_polls-IsGated max (release y i) es (release-IsGated max y i v)

-- The gate before its first poll.
abbrev pub opened : ℤ → Polls
opened maximum = record { gate = new_gate maximum; releases = [] }

new_gate_empty : (maximum : ℤ) → (new_gate maximum).active ≡ []
unfolding new_gate
new_gate_empty (pos n) = refl
new_gate_empty (negsuc n) = refl

-- After any polls and calls of release functions, repeated ones included, a new gate holds exactly
-- the capabilities of the polls that run, each once, and they are at most its limit.
pub run_polls_bounds :
    (maximum : ℤ) (es : List PollEvent)
    → let y = run_polls (opened maximum) es in
      (y.gate.active ≡ running y.releases)
      × Unique (running y.releases)
      × (length (running y.releases) ≤ (new_gate maximum).max)
run_polls_bounds maximum es =
    let v = run_polls-IsGated _ (opened maximum) es (record {
      limit = refl;
      tracks = new_gate_empty maximum;
      unique = none_yet;
      bounded = few;
    }) in
    (
      v.tracks,
      subst Unique v.tracks v.unique,
      subst (λ xs. length xs ≤ (new_gate maximum).max) v.tracks v.bounded,
    )
  where
    none_yet : Unique (new_gate maximum).active
    none_yet = subst Unique (sym (new_gate_empty maximum)) tt

    few : length (new_gate maximum).active ≤ (new_gate maximum).max
    few = omega (arith, ap length (new_gate_empty maximum))

-- After any polls and calls of release functions on a new gate, a poll is admitted exactly when its
-- capability is not empty, no poll with that capability runs, and fewer polls run than the limit.
pub acquire_iff :
    (maximum : ℤ) (es : List PollEvent) (h : String)
    → let y = run_polls (opened maximum) es in
      ((acquire y.gate h).0 ≡ true) ↔ (
        (h ≢ "")
        × (contains (running y.releases) h ≡ false)
        × (length (running y.releases) < y.gate.max))
unfolding acquire
acquire_iff maximum es h =
    let (same, _, _) = run_polls_bounds maximum es in
    (ground (arith, same, eq_iff h ""), ground (arith, same, eq_iff h ""))
