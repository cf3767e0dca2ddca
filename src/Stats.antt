-- ===== src/Stats.antt =====
-- internal/transport/stats_validation.go: transfer statistics that a client reports. The redaction
-- and truncation of free text is a parameter.
use wormzy.Prelude.{
  ◌*◌, ◌^◌, String, Bool, true, false, not, ◌&&◌, ◌||◌, ◌==◌, ◌!=◌, Text_eq, contains, [], ◌∷◌,
  if◌then◌else◌,
}
use wormzy.Prelude.Int.{ℤ, pos, ltb_ℤ, is_negative}
use wormzy.Role.{valid_role}
use wormzy.Session.{TransferStats, Result, ok, guard, ◌>>◌, invalid_transfer_stats}

abbrev pub max_reported_transfer_bytes : ℤ
max_reported_transfer_bytes = pos (2 ^ 50)

abbrev pub max_reported_transfer_duration_millis : ℤ
max_reported_transfer_duration_millis = pos (30 * 24 * 60 * 60 * 1000)

unfoldable pub valid_reported_failure : String → Bool
valid_reported_failure = contains (
    "" ∷ "canceled" ∷ "timeout" ∷ "mailbox" ∷ "authentication" ∷ "network" ∷ "storage" ∷ "transfer"
    ∷ [])

unfoldable pub valid_reported_transport : String → Bool
valid_reported_transport = contains ("" ∷ "p2p" ∷ "relay" ∷ [])

unfoldable pub valid_reported_candidate : String → Bool
valid_reported_candidate = contains (
    "" ∷ "loopback" ∷ "local" ∷ "reflexive" ∷ "upnp" ∷ "relay" ∷ "legacy-public" ∷ "legacy-local"
    ∷ "direct-unknown" ∷ "ice-p2p" ∷ "ice-relay" ∷ [])

unfoldable pub valid_reported_direct_outcome : String → Bool
valid_reported_direct_outcome =
    contains ("" ∷ "pending" ∷ "won" ∷ "quic-timeout" ∷ "no-response" ∷ "noise-failed" ∷ [])

unfoldable pub transport_label_for_reported_candidate : String → String
transport_label_for_reported_candidate candidate =
    if candidate == "relay" || candidate == "ice-relay"
    then "relay"
    else if candidate == ""
    then ""
    else "p2p"

abbrev in_range : ℤ → ℤ → Bool
in_range n max = not (is_negative n || ltb_ℤ max n)

-- Go's `a != b` on two tests
abbrev differ : Bool → Bool → Bool
differ true b = not b
differ false b = b

unfoldable pub validate_and_sanitize_transfer_stats :
    (String → String) → String → TransferStats → Result TransferStats
validate_and_sanitize_transfer_stats sanitize role stats = do
  guard (valid_role role) invalid_transfer_stats
  guard (stats.mode == role) invalid_transfer_stats
  guard (valid_reported_transport stats.transport) invalid_transfer_stats
  guard (valid_reported_candidate stats.candidate) invalid_transfer_stats
  guard (valid_reported_direct_outcome stats.direct_outcome) invalid_transfer_stats
  guard (not (differ (stats.transport == "") (stats.candidate == ""))) invalid_transfer_stats
  guard
      (not (
        stats.transport != ""
        && stats.transport != transport_label_for_reported_candidate stats.candidate))
      invalid_transfer_stats
  guard (in_range stats.bytes max_reported_transfer_bytes) invalid_transfer_stats
  guard (in_range stats.duration_millis max_reported_transfer_duration_millis)
      invalid_transfer_stats
  guard (valid_reported_failure stats.error) invalid_transfer_stats
  guard
      (not (
        stats.completed && (stats.transport == "" || (stats.candidate == "" || stats.error != ""))))
      invalid_transfer_stats
  ok (record stats { direct_summary = sanitize stats.direct_summary })
