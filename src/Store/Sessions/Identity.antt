-- ===== src/Store/Sessions/Identity.antt =====
-- internal/transport/session_store.go: every closure that `modify` runs keeps the session's code and
-- creation time, as the steps of Store/Trace.antt ask.
use wormzy.Prelude.{
  ℕ, String, ◌==◌, Text_eq, List, [], ◌∷◌, ap, arith, inl, inr, Option-cases, Bool-cases,
}
use wormzy.Role.{send, recv}
use wormzy.Mailbox.Capability.{verifier_equal}
use wormzy.Mailbox.Message.{MailboxMessage}
use wormzy.Session.{SelfInfo, TransferStats, MsgPt, RendezvousSession, Result-cases}
use wormzy.Stats.{validate_and_sanitize_transfer_stats}
use wormzy.Store.Operations.{
  authenticate_session_role, set_peer, register_sender_in, register_receiver_in,
  update_peer_info_in, enqueue_in, dequeue_in, pop_front, queue_of, record_stats_in,
}
use wormzy.Store.Sessions.Queues.{enqueue_in_parts, dequeue_in_parts}
use wormzy.Store.Trace.{KeepsIdentity}

pub register_sender_in-KeepsIdentity :
    (cap : String) (now : ℕ) → KeepsIdentity (register_sender_in cap now)
unfolding register_sender_in
register_sender_in-KeepsIdentity cap now s a t h = elim (Option-cases s.sender) [
  | inl e ↦ (ground arith, ground arith)
  | inr (p, e) ↦ (ground arith, ground arith)
]

pub register_receiver_in-KeepsIdentity :
    (cap : String) (now : ℕ) → KeepsIdentity (register_receiver_in cap now)
unfolding register_receiver_in
register_receiver_in-KeepsIdentity cap now s a t h = elim (Option-cases s.receiver) [
  | inl e ↦ elim (Option-cases s.sender) [
    | inl e2 ↦ absurd (ground arith)
    | inr (p, e2) ↦ elim (Bool-cases (verifier_equal p.capability_hash cap)) [
      | inl b ↦ absurd (ground arith)
      | inr b ↦ (ground arith, ground arith)
    ]
  ]
  | inr (p, e) ↦ (ground arith, ground arith)
]

pub update_peer_info_in-KeepsIdentity :
    (role cap : String) (info : SelfInfo) (now : ℕ)
    → KeepsIdentity (update_peer_info_in role cap info now)
unfolding update_peer_info_in set_peer
update_peer_info_in-KeepsIdentity role cap info now s a t h =
    elim (Result-cases (authenticate_session_role s role cap)) [
      | inl (peer, e) ↦ elim (Bool-cases (role == send)) [
        | inl b ↦ (ground arith, ground arith)
        | inr b ↦ elim (Bool-cases (role == recv)) [
          | inl c ↦ (ground arith, ground arith)
          | inr c ↦ (ground arith, ground arith)
        ]
      ]
      | inr (e, f) ↦ absurd (ground arith)
    ]

pub enqueue_in-KeepsIdentity :
    (source dest cap : String) (msg : MailboxMessage)
    → KeepsIdentity (enqueue_in source dest cap msg)
enqueue_in-KeepsIdentity source dest cap msg s a t h =
    let (_, _, _, _, _, _, e) = enqueue_in_parts source dest cap msg s t h in
    (ap (λ (x : RendezvousSession). x.code) e, ap (λ (x : RendezvousSession). x.created_unix) e)

popped : (role : String) (queue : List MsgPt) → KeepsIdentity (pop_front role queue)
unfolding pop_front
popped role [] s a t h = absurd (ground arith)
popped role (item ∷ rest) s a t h = (ground arith, ground arith)

pub dequeue_in-KeepsIdentity : (role cap : String) → KeepsIdentity (dequeue_in role cap)
dequeue_in-KeepsIdentity role cap s a t h =
    popped role (queue_of role s.pending) s a t (dequeue_in_parts role cap a s t h)

pub record_stats_in-KeepsIdentity :
    (sanitize : String → String) (zero_stats : TransferStats) (role cap : String)
    (stats : TransferStats) (now : ℕ)
    → KeepsIdentity (record_stats_in sanitize zero_stats role cap stats now)
unfolding record_stats_in
record_stats_in-KeepsIdentity sanitize zero_stats role cap stats now s a t h =
    elim (Result-cases (authenticate_session_role s role cap)) [
      | inl (peer, e) ↦
          elim (Result-cases (validate_and_sanitize_transfer_stats sanitize role stats)) [
            | inl (v, f) ↦ (ground arith, ground arith)
            | inr (x, f) ↦ absurd (ground arith)
          ]
      | inr (x, e) ↦ absurd (ground arith)
    ]
