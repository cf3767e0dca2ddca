-- ===== src/Examples/Mailboxes.antt =====
-- The mailbox at concrete inputs.
use wormzy.Prelude.{
  ℕ, ◌≤◌, String, true, list_eq, none, some, List, [], ◌∷◌, ◌++◌, length, ◌≡◌, ◌≢◌, ◌↔◌, refl,
  arith,
}
use wormzy.Prelude.Dict.{Dict, lookup, insert}
use wormzy.Prelude.Int.{pos}
use wormzy.Encoding.{base64_decode, base64_encode}
use mathlib.Core.Option.{bind}
use wormzy.Role.{send, recv}
use wormzy.Session.{RendezvousSession, SessionPeer, MsgPt, ok}
use wormzy.Mailbox.Message.{
  MailboxMessage, ProtocolMailbox, receive_type, receive_loop, take_deferred, defer_message,
  validate_mailbox_message, after_receive, max_deferred_mailbox_messages,
}
use wormzy.Mailbox.Message
use wormzy.Mailbox.Capability.{verifier_equal, valid_verifier}
use wormzy.Mailbox.Delivery.{TakesFirst, receive_type-TakesFirst}
use wormzy.Mailbox.Progress.{receive_type_finds}
use wormzy.Store.Operations.{
  authenticate_session_role, peer_for_role, register_receiver_in, enqueue_in, dequeue_in, pop_front,
  queue_of, pending_bytes, max_pending_mailbox_messages_per_role,
  max_pending_mailbox_bytes_per_session,
}
use wormzy.Store.Create.{new_peer}
use wormzy.Store.Sessions.Queues.{item_of, pending_size, enqueue_in_lem, dequeue_in_lem}
use wormzy.Store.Sessions.Peers.{
  started, and_then, registers_receiver, StaysClaimed, run-StaysClaimed,
  authenticate_session_role_iff,
}

abbrev offer : MailboxMessage
offer = record { kind = "offer"; body = b'1' ∷ [] }

abbrev stats : MailboxMessage
stats = record { kind = "stats"; body = b'2' ∷ [] }

abbrev two_messages : ProtocolMailbox
two_messages = record { deferred = []; incoming = stats ∷ offer ∷ [] }

receive_type-TakesFirst_example : TakesFirst ("offer" ∷ []) offer (stats ∷ offer ∷ []) (stats ∷ [])
unfolding receive_type take_deferred defer_message validate_mailbox_message
receive_type-TakesFirst_example =
    receive_type-TakesFirst ("offer" ∷ []) two_messages offer
      (record { deferred = stats ∷ []; incoming = [] }) refl

receive_type_finds_example : (receive_type two_messages ("offer" ∷ [])).0 ≡ Message.ok offer
unfolding validate_mailbox_message
receive_type_finds_example =
    receive_type_finds ("offer" ∷ []) offer two_messages (stats ∷ []) [] refl refl (refl, tt)
      (omega arith) (refl, (refl, tt))

abbrev verifier_one : String
verifier_one = "AAAAAAAAAAAAAAAAAAAAAAAAAAAAAAAAAAAAAAAAAAA"

abbrev verifier_two : String
verifier_two = "AAAAAAAAAAAAAAAAAAAAAAAAAAAAAAAAAAAAAAAAAAE"

abbrev peer : ℕ → String → String → SessionPeer
peer id role capability_hash = record {
  id = id;
  role = role;
  capability_hash = capability_hash;
  info = none;
  registered_at = 0;
  last_update = 0;
}

abbrev session : Dict (List MsgPt) → RendezvousSession
session queues = record {
  code = "code";
  created_unix = pos 0;
  ttl_seconds = 600;
  sender = some (peer 1 send verifier_one);
  receiver = none;
  pending = queues;
  next_side_id = 2;
  stats = none;
  stats_by_role = [];
}

abbrev joined : RendezvousSession
joined = record (session []) { receiver = some (peer 2 recv verifier_two); next_side_id = 3 }

run-StaysClaimed_example :
    StaysClaimed (some (peer 1 send verifier_one)) (some (peer 1 send verifier_one))
    × StaysClaimed none (some (peer 2 recv verifier_two))
unfolding register_receiver_in new_peer verifier_equal base64_decode base64_encode bind list_eq
run-StaysClaimed_example =
    run-StaysClaimed (λ x. x) (session []) joined
      (and_then (session []) joined started (registers_receiver verifier_two 0 refl))

authenticate_session_role_iff_example :
    (authenticate_session_role joined recv verifier_two ≡ ok (peer 2 recv verifier_two)) ↔ (
      (peer_for_role joined recv ≡ some (peer 2 recv verifier_two))
      × (verifier_two ≡ verifier_two)
      × (valid_verifier verifier_two ≡ true)
      × (recv ≡ recv))
authenticate_session_role_iff_example =
    authenticate_session_role_iff joined recv verifier_two (peer 2 recv verifier_two)

abbrev one_queued : RendezvousSession
one_queued = session ((recv, item_of offer ∷ []) ∷ [])

enqueued : enqueue_in send recv verifier_one offer (session []) ≡ ok (tt, one_queued)
unfolding enqueue_in authenticate_session_role peer_for_role pending_bytes insert lookup
    verifier_equal base64_decode base64_encode bind list_eq
enqueued = refl

enqueue_in_lem_example :
    (queue_of recv one_queued.pending ≡ queue_of recv [] ++ item_of offer ∷ [])
    × ((other : String) → recv ≢ other → queue_of other one_queued.pending ≡ queue_of other [])
    × (length (queue_of recv one_queued.pending) ≤ max_pending_mailbox_messages_per_role)
    × (pending_size one_queued.pending ≤ max_pending_mailbox_bytes_per_session)
    × (one_queued.sender ≡ (session []).sender)
    × (one_queued.receiver ≡ none)
enqueue_in_lem_example =
    enqueue_in_lem send recv verifier_one offer (session []) one_queued enqueued

abbrev to_sender : RendezvousSession
to_sender = session ((send, item_of offer ∷ item_of stats ∷ []) ∷ [])

abbrev taken : RendezvousSession
taken = session ((send, item_of stats ∷ []) ∷ [])

dequeued : dequeue_in send verifier_one to_sender ≡ ok (offer, taken)
unfolding dequeue_in authenticate_session_role peer_for_role pop_front insert lookup verifier_equal
    base64_decode base64_encode bind list_eq
dequeued = refl

dequeue_in_lem_example :
    (queue_of send to_sender.pending ≡ item_of offer ∷ queue_of send taken.pending)
    × ((other : String)
        → send ≢ other
        → queue_of other taken.pending ≡ queue_of other to_sender.pending)
    × (pending_size taken.pending ≤ pending_size to_sender.pending)
    × (taken.sender ≡ to_sender.sender)
    × (taken.receiver ≡ to_sender.receiver)
dequeue_in_lem_example = dequeue_in_lem send verifier_one offer to_sender taken dequeued
