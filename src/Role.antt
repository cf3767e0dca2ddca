-- ===== src/Role.antt =====
-- The two roles of a session: internal/transport/session_store.go, `oppositeRole` and
-- `validateMailboxRole`. A role is the text that the request carries.
use wormzy.Prelude.{
  String, Bool, true, ◌||◌, ◌==◌, Text_eq, ◌≡◌, ◌≢◌, refl, ◌⊎◌, inl, inr, eq_iff, arith,
  if◌then◌else◌,
}

abbrev pub send : String
send = "send"

abbrev pub recv : String
recv = "recv"

unfoldable pub opposite_role : String → String
opposite_role role = if role == send then recv else if role == recv then send else ""

-- validateMailboxRole(role) == nil
unfoldable pub valid_role : String → Bool
valid_role role = role == send || role == recv

pub valid_role-cases : (role : String) → valid_role role ≡ true → (role ≡ send) ⊎ (role ≡ recv)
unfolding valid_role
valid_role-cases role h = ground (arith, eq_iff role send, eq_iff role recv)

-- The opposite of a valid role is a valid role other than it, and the opposite of the opposite is
-- the role itself.
pub opposite_role_lem :
    (role : String)
    → valid_role role ≡ true
    → (valid_role (opposite_role role) ≡ true)
      × (opposite_role (opposite_role role) ≡ role)
      × (opposite_role role ≢ role)
unfolding opposite_role valid_role
opposite_role_lem role h = elim (valid_role-cases role h) [
  | inl e ↦ rw e (refl, refl, λ p. ground (arith, eq_iff recv send))
  | inr e ↦ rw e (refl, refl, λ p. ground (arith, eq_iff send recv))
]
