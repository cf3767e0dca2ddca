-- ===== src/Store/Operations.antt =====
-- internal/transport/session_store.go: what the mailbox's requests do to one session. Each function
-- that ends in `_in` is the closure that its method hands to `modify`; `now` is the wall clock, in
-- seconds.
use wormzy.Prelude.{
  ℕ, ◌+◌, String, len, ◌&&◌, ◌==◌, Nat_eq, Text_eq, Option, none, some, List, [], ◌∷◌, ◌++◌, length,
  if◌then◌else◌, ltb, leb,
}
use mathlib.Core.Option
use wormzy.Prelude.Dict.{Dict, lookup, insert}
use wormzy.Role.{send, recv}
use wormzy.Mailbox.Capability.{verifier_equal}
use wormzy.Mailbox.Message.{MailboxMessage}
use wormzy.Session.{
  SelfInfo, TransferStats, SessionPeer, MsgPt, RendezvousSession, StoreError, Result, ok, err,
  ◌>>=◌, ◌>>◌, guard, session_not_found, no_pending_message, mailbox_queue_full, mailbox_bytes_full,
  mailbox_unavailable, mailbox_authentication,
}
use wormzy.Stats.{validate_and_sanitize_transfer_stats}
use wormzy.Store.Create.{new_peer, next_id}
use wormzy.Store.Modify.{Mutation}

abbrev pub max_pending_mailbox_messages_per_role : ℕ
max_pending_mailbox_messages_per_role = 16

abbrev pub max_pending_mailbox_bytes_per_session : ℕ
max_pending_mailbox_bytes_per_session = 262144

-- peerForRole
unfoldable pub peer_for_role : RendezvousSession → String → Option SessionPeer
peer_for_role sess role =
    if role == send then sess.sender else if role == recv then sess.receiver else none

-- The pointer that peerForRole returns is written through.
unfoldable pub set_peer : RendezvousSession → String → SessionPeer → RendezvousSession
set_peer sess role peer =
    if role == send
    then record sess { sender = some peer }
    else if role == recv
    then record sess { receiver = some peer }
    else sess

-- authenticateSessionRole: where the peer is missing, a comparison is made for its duration only.
unfoldable pub authenticate_session_role : RendezvousSession → String → String → Result SessionPeer
unfolding peer_for_role
authenticate_session_role sess role capability_hash = elim (peer_for_role sess role) [
  | none ↦ err mailbox_authentication
  | some peer ↦
      if verifier_equal peer.capability_hash capability_hash && peer.role == role
      then ok peer
      else err mailbox_authentication
]

-- authenticatedStoreError
abbrev pub hidden : StoreError → StoreError
hidden session_not_found = mailbox_authentication
hidden mailbox_unavailable = mailbox_authentication
hidden e = e

abbrev pub hide {ℓ} : {A : Type ℓ} → Result A → Result A
hide (ok a) = ok a
hide (err e) = err (hidden e)

-- A claimed slot answers its owner as before, and nobody else.
abbrev reclaim : SessionPeer → String → RendezvousSession → Result (Unit {0} × RendezvousSession)
reclaim peer capability_hash sess =
    if verifier_equal peer.capability_hash capability_hash
    then ok (tt, sess)
    else err mailbox_unavailable

unfoldable pub register_sender_in : String → ℕ → Mutation (Unit {0})
unfolding new_peer
register_sender_in capability_hash now sess = elim sess.sender [
  | some peer ↦ reclaim peer capability_hash sess
  | none ↦ ok (
    tt,
    record sess {
      sender = some (new_peer sess send capability_hash now);
      next_side_id = next_id sess;
    },
  )
]

unfoldable pub register_receiver_in : String → ℕ → Mutation (Unit {0})
unfolding new_peer
register_receiver_in capability_hash now sess = elim sess.receiver [
  | some peer ↦ reclaim peer capability_hash sess
  | none ↦ elim sess.sender [
    | none ↦ err mailbox_unavailable
    | some sender ↦
        if verifier_equal sender.capability_hash capability_hash
        then err mailbox_unavailable
        else ok (
          tt,
          record sess {
            receiver = some (new_peer sess recv capability_hash now);
            next_side_id = next_id sess;
          },
        )
  ]
]

unfoldable pub update_peer_info_in : String → String → SelfInfo → ℕ → Mutation (Unit {0})
unfolding authenticate_session_role set_peer
update_peer_info_in role capability_hash info now sess = do
  peer ← authenticate_session_role sess role capability_hash
  ok (tt, set_peer sess role (record peer { info = some info; last_update = now }))

-- sessionPendingMailboxBytes, over one queue and over all
unfoldable pub queue_bytes : ℕ → List MsgPt → Result ℕ
queue_bytes total [] = ok total
queue_bytes total (message ∷ rest) =
    let bytes = len message.kind + length message.body in
    let next = queue_bytes (total + bytes) rest in
    if ltb max_pending_mailbox_bytes_per_session (total + bytes)
    then err mailbox_bytes_full
    else next

unfoldable pub pending_bytes : ℕ → Dict (List MsgPt) → Result ℕ
unfolding queue_bytes
pending_bytes total [] = ok total
pending_bytes total ((role, queue) ∷ rest) =
    queue_bytes total queue >>= λ sum. pending_bytes sum rest

abbrev pub queue_of : String → Dict (List MsgPt) → List MsgPt
queue_of role pending = Option.get_or (lookup role pending) []

unfoldable pub enqueue_in : String → String → String → MailboxMessage → Mutation (Unit {0})
unfolding authenticate_session_role pending_bytes
enqueue_in source_role dest_role capability_hash msg sess = do
  peer ← authenticate_session_role sess source_role capability_hash
  let queue = queue_of dest_role sess.pending
  guard (ltb (length queue) max_pending_mailbox_messages_per_role) mailbox_queue_full
  pending ← pending_bytes 0 sess.pending
  guard (leb (pending + (len msg.kind + length msg.body)) max_pending_mailbox_bytes_per_session)
      mailbox_bytes_full
  let raw : MsgPt = record { kind = msg.kind; body = msg.body }
  ok (tt, record sess { pending = insert dest_role (queue ++ raw ∷ []) sess.pending })

unfoldable pub pop_front :
    String → List MsgPt → RendezvousSession → Result (MailboxMessage × RendezvousSession)
pop_front role [] sess = err no_pending_message
pop_front role (item ∷ rest) sess = ok (
  record { kind = item.kind; body = item.body },
  record sess { pending = insert role rest sess.pending },
)

unfoldable pub dequeue_in : String → String → Mutation MailboxMessage
unfolding authenticate_session_role pop_front
dequeue_in role capability_hash sess = do
  peer ← authenticate_session_role sess role capability_hash
  pop_front role (queue_of role sess.pending) sess

-- authoritativeTransferStats: the zero value stands for a role that has not reported.
unfoldable pub authoritative_transfer_stats : TransferStats → Dict TransferStats → TransferStats
authoritative_transfer_stats zero_stats by_role = elim (lookup recv by_role) [
  | some stats ↦ stats
  | none ↦ Option.get_or (lookup send by_role) zero_stats
]

unfoldable pub record_stats_in :
    (String → String) → TransferStats → String → String → TransferStats → ℕ → Mutation (Unit {0})
unfolding authenticate_session_role authoritative_transfer_stats
record_stats_in sanitize zero_stats role capability_hash stats now sess = do
  peer ← authenticate_session_role sess role capability_hash
  validated ← validate_and_sanitize_transfer_stats sanitize role stats
  let by_role = insert role (record validated { updated_unix = now }) sess.stats_by_role
  ok (
    tt,
    record sess {
      stats_by_role = by_role;
      stats = some (authoritative_transfer_stats zero_stats by_role);
    },
  )
