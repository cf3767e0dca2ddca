-- ===== src/Mailbox/SessionId.antt =====
-- internal/transport/pairing_route.go, `validMailboxSessionID`.
use Prim.Native.String.{slice}
use text.Mathlib.Text.{starts_with}
use wormzy.Prelude.{
  ℕ, String, len, Bool, false, ◌&&◌, ◌==◌, Nat_eq, List_eq, none, some, length, codes, List,
}
use wormzy.Encoding.{base64_decode, base64_encode}

abbrev pub mailbox_session_id_prefix : String
mailbox_session_id_prefix = "mbx2-"

abbrev pub mailbox_session_id_bytes : ℕ
mailbox_session_id_bytes = 32

abbrev pub mailbox_session_id_length : ℕ
mailbox_session_id_length = 48

-- The text decodes to that many bytes, and is the encoding of them.
abbrev pub canonical : ℕ → List ℕ → Bool
canonical size encoded = elim (base64_decode encoded) [
  | none ↦ false
  | some raw ↦ length raw == size && base64_encode raw == encoded
]

unfoldable pub valid_mailbox_session_id : String → Bool
valid_mailbox_session_id id =
    len id == mailbox_session_id_length
    && (starts_with id mailbox_session_id_prefix
        && canonical mailbox_session_id_bytes (codes (slice id 5 (len id))))
