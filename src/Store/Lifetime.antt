-- ===== src/Store/Lifetime.antt =====
-- internal/transport/session_store.go: the store's settings, its keys, and how long a session may
-- live. Redis's clock is a number of microseconds since 1970; a duration is a number of
-- nanoseconds, and 0 stands for every value that is not positive.
use Prim.Native.String.{◌++◌}
use wormzy.Prelude.{
  ℕ, ◌+◌, ◌-◌, ◌*◌, ◌/◌, ◌^◌, ◌≤◌, ◌<◌, String, ◌||◌, ◌==◌, Nat_eq, Option, none, some,
  if◌then◌else◌, ltb, leb, min, ◌≡◌, refl, arith, Option-cases, inl, inr, ◌⊎◌, ◌↔◌, false,
  Bool-cases,
}
use wormzy.Prelude.Int.{ℤ, pos, negsuc}
use wormzy.Mailbox.SessionId.{valid_mailbox_session_id}

abbrev pub default_max_active_mailbox_sessions : ℕ
default_max_active_mailbox_sessions = 2048

-- 12 hours
abbrev pub default_max_mailbox_session_lifetime : ℕ
default_max_mailbox_session_lifetime = 43_200_000_000_000

abbrev pub max_int64 : ℕ
max_int64 = 2 ^ 63 - 1

pub record SessionStore : Type 0 where
  pub prefix : String
  pub ttl : ℕ
  pub max_sessions : ℕ
  pub max_lifetime : ℕ

-- time.Time.Unix and UnixMilli of a time on Redis's clock
abbrev pub unix : ℕ → ℕ
unix now = now / 1000000

abbrev pub unix_milli : ℕ → ℕ
unix_milli now = now / 1000

-- key
unfoldable pub key : SessionStore → String → Option String
key st code =
    if valid_mailbox_session_id code then some (st.prefix ++ (":sessions:" ++ code)) else none

-- activeSessionsKey
unfoldable pub active_sessions_key : SessionStore → String
active_sessions_key st = st.prefix ++ ":active-sessions"

abbrev pub effective_max_sessions : SessionStore → ℕ
effective_max_sessions st =
    if ltb 0 st.max_sessions then st.max_sessions else default_max_active_mailbox_sessions

abbrev pub effective_max_lifetime : SessionStore → ℕ
effective_max_lifetime st =
    if ltb 0 st.max_lifetime then st.max_lifetime else default_max_mailbox_session_lifetime

-- Duration.Milliseconds
abbrev pub lifetime_millis : SessionStore → ℕ
lifetime_millis st = effective_max_lifetime st / 1000000

-- sessionAbsoluteExpiryMillis
unfoldable pub absolute_expiry_millis : SessionStore → ℤ → ℕ → Option ℕ
absolute_expiry_millis st (negsuc n) now = none
absolute_expiry_millis st (pos created) now =
    if created == 0 || ltb (unix now) created
    then none
    else if ltb (lifetime_millis st) 1 || ltb ((max_int64 - lifetime_millis st) / 1000) created
    then none
    else let expires = created * 1000 + lifetime_millis st in
      if leb expires (unix_milli now) then none else some expires

-- redisNow.Add(st.ttl).UnixMilli()
abbrev pub lease_end : SessionStore → ℕ → ℕ
lease_end st now = (now * 1000 + st.ttl) / 1000000

-- sessionRefreshExpiryMillis
abbrev capped : SessionStore → ℕ → Option ℕ → Option ℕ
capped st now none = none
capped st now (some absolute) =
    let lease = if ltb absolute (lease_end st now) then absolute else lease_end st now in
    if leb lease (unix_milli now) then none else some lease

unfoldable pub refresh_expiry_millis : SessionStore → ℤ → ℕ → Option ℕ
unfolding absolute_expiry_millis
refresh_expiry_millis st created now =
    if st.ttl == 0 then none else capped st now (absolute_expiry_millis st created now)

-- An absolute deadline that is computed is the creation time plus the lifetime, in milliseconds; it
-- lies in the future and within an int64, and the creation time is not in the future.
pub absolute_expiry_millis_bounds :
    (st : SessionStore) (created : ℤ) (now e : ℕ)
    → absolute_expiry_millis st created now ≡ some e
    → (c : ℕ) × (created ≡ pos c)
      × (e ≡ c * 1000 + lifetime_millis st)
      × (unix_milli now < e)
      × (e ≤ max_int64)
      × (c ≤ unix now)
unfolding absolute_expiry_millis
absolute_expiry_millis_bounds st (negsuc n) now e h = absurd (ground arith)
absolute_expiry_millis_bounds st (pos c) now e h =
    (c, refl, ground arith, ground arith, ground arith, ground arith)

-- A lease that is refreshed is ahead, and the earlier of two ends.
pub refresh_expiry_millis_bounds :
    (st : SessionStore) (created : ℤ) (now e : ℕ)
    → refresh_expiry_millis st created now ≡ some e
    → (a : ℕ) × (absolute_expiry_millis st created now ≡ some a)
      × (unix_milli now < e)
      × (e ≡ min a (lease_end st now))
unfolding refresh_expiry_millis
refresh_expiry_millis_bounds st created now e h =
    elim (Option-cases (absolute_expiry_millis st created now)) [
      | inl x ↦ absurd (ground (arith, x))
      | inr (a, x) ↦ (a, x, ground (arith, x), ground (arith, x))
    ]

-- A lease for a session that was created at a second: the last millisecond that is no later than the
-- creation time plus the lifetime and than the clock plus the time to live, if that millisecond is
-- ahead. The session was not created later than now, and its whole lifetime fits an int64.
pub record IsLease (st : SessionStore) (created now e : ℕ) : Type 0 where
  pub created_positive : 0 < created
  pub created_before : created * 1000000 ≤ now
  pub fits : created * 1000 + lifetime_millis st ≤ max_int64
  pub in_lifetime : e ≤ created * 1000 + lifetime_millis st
  pub in_ttl : e * 1000000 ≤ now * 1000 + st.ttl
  pub last : (e ≡ created * 1000 + lifetime_millis st) ⊎ (now * 1000 + st.ttl < (e + 1) * 1000000)
  pub ahead : now < e * 1000

refresh_expiry_millis-IsLease :
    (st : SessionStore) (created now e : ℕ)
    → refresh_expiry_millis st (pos created) now ≡ some e
    → IsLease st created now e
unfolding refresh_expiry_millis absolute_expiry_millis
refresh_expiry_millis-IsLease st created now e h =
    elim (Option-cases (absolute_expiry_millis st (pos created) now)) [
      | inl x ↦ absurd (ground (arith, x))
      | inr (a, x) ↦
          let absolute : a ≡ created * 1000 + lifetime_millis st = ground (arith, x) in
          let positive : 0 < created = ground (arith, x) in
          let before : created ≤ now / 1000000 = ground (arith, x) in
          let room : created ≤ (max_int64 - lifetime_millis st) / 1000 = ground (arith, x) in
          let end : e ≡ min a (lease_end st now) = ground (arith, x) in
          let later : now / 1000 < e = ground (arith, x) in
          record {
            created_positive = positive;
            created_before = omega arith;
            fits = omega arith;
            in_lifetime = omega arith;
            in_ttl = omega arith;
            last = elim (Bool-cases (leb a (lease_end st now))) [
              | inl short ↦ inl (ground (arith, short, end, absolute))
              | inr long ↦ inr (ground (arith, long, end))
            ];
            ahead = omega arith;
          }
    ]

IsLease-refresh_expiry_millis :
    (st : SessionStore) (created now e : ℕ)
    → IsLease st created now e
    → refresh_expiry_millis st (pos created) now ≡ some e
unfolding refresh_expiry_millis absolute_expiry_millis
IsLease-refresh_expiry_millis st created now e i =
    let absolute = created * 1000 + lifetime_millis st in
    let before : ltb (unix now) created ≡ false = ground (arith, i.created_before) in
    let positive : (created == 0) ≡ false = ground (arith, i.created_positive) in
    let alive : ltb (lifetime_millis st) 1 ≡ false =
      ground (arith, i.created_before, i.ahead, i.in_lifetime) in
    let room : ltb ((max_int64 - lifetime_millis st) / 1000) created ≡ false =
      ground (arith, i.fits) in
    let later : leb absolute (unix_milli now) ≡ false = ground (arith, i.ahead, i.in_lifetime) in
    let known : absolute_expiry_millis st (pos created) now ≡ some absolute =
      rw (positive, before, alive, room, later) refl in
    let ttl : (st.ttl == 0) ≡ false = ground (arith, i.in_ttl, i.ahead) in
    let open_end : leb e (unix_milli now) ≡ false = ground (arith, i.ahead) in
    let end : (if ltb absolute (lease_end st now) then absolute else lease_end st now) ≡ e =
      elim i.last [
        | inl short ↦ ground (arith, short, i.in_ttl)
        | inr long ↦ ground (arith, long, i.in_ttl, i.in_lifetime)
      ] in
    rw (ttl, known, end, open_end) refl

pub refresh_expiry_millis_iff :
    (st : SessionStore) (created now e : ℕ)
    → (refresh_expiry_millis st (pos created) now ≡ some e) ↔ IsLease st created now e
refresh_expiry_millis_iff st created now e =
    (refresh_expiry_millis-IsLease st created now e, IsLease-refresh_expiry_millis st created now e)
