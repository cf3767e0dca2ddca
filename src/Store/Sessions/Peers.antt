-- ===== src/Store/Sessions/Peers.antt =====
-- internal/transport/session_store.go: who owns a session's roles, over any run of its requests.
use wormzy.Prelude.{
  ℕ, String, true, ◌==◌, Text_eq, eq_iff, Option, some, ◌≡◌, ◌↔◌, refl, arith, inl, inr,
  Option-cases, Bool-cases, ap, sym, ◌∙◌,
}
use mathlib.Core.Option
use wormzy.Role.{send, recv}
use wormzy.Mailbox.Capability.{verifier_equal, verifier_equal_iff, valid_verifier}
use wormzy.Mailbox.Message.{MailboxMessage}
use wormzy.Session.{SelfInfo, TransferStats, SessionPeer, RendezvousSession, Result-cases, ok}
use wormzy.Stats.{validate_and_sanitize_transfer_stats}
use wormzy.Store.Operations.{
  peer_for_role, set_peer, authenticate_session_role, register_sender_in, register_receiver_in,
  update_peer_info_in, enqueue_in, dequeue_in, record_stats_in,
}
use wormzy.Store.Sessions.Queues.{enqueue_in_lem, dequeue_in_lem}

-- A request speaks for a role of a session as a peer exactly when the peer holds that role's slot,
-- its verifier is the request's, the verifier is canonical, and the peer's own role is that role.
pub authenticate_session_role_iff :
    (sess : RendezvousSession) (role cap : String) (peer : SessionPeer)
    → (authenticate_session_role sess role cap ≡ ok peer) ↔ (
        (peer_for_role sess role ≡ some peer)
        × (peer.capability_hash ≡ cap)
        × (valid_verifier cap ≡ true)
        × (peer.role ≡ role))
unfolding authenticate_session_role
authenticate_session_role_iff sess role cap peer = elim (Option-cases (peer_for_role sess role)) [
  | inl e ↦ (ground (arith, e), ground (arith, e))
  | inr (p, e) ↦ (
    ground (arith, e, verifier_equal_iff p.capability_hash cap, eq_iff p.role role),
    ground (arith, e, verifier_equal_iff p.capability_hash cap, eq_iff p.role role),
  )
]

-- What one successful request does to a session.
pub data SessionStep (sanitize : String → String) (s t : RendezvousSession) : Type 0 where
  registers_sender :
      (cap : String) (now : ℕ)
      → register_sender_in cap now s ≡ ok (tt, t)
      → SessionStep sanitize s t
  registers_receiver :
      (cap : String) (now : ℕ)
      → register_receiver_in cap now s ≡ ok (tt, t)
      → SessionStep sanitize s t
  updates :
      (role cap : String) (info : SelfInfo) (now : ℕ)
      → update_peer_info_in role cap info now s ≡ ok (tt, t)
      → SessionStep sanitize s t
  enqueues :
      (source dest cap : String) (msg : MailboxMessage)
      → enqueue_in source dest cap msg s ≡ ok (tt, t)
      → SessionStep sanitize s t
  dequeues :
      (role cap : String) (out : MailboxMessage)
      → dequeue_in role cap s ≡ ok (out, t)
      → SessionStep sanitize s t
  records :
      (zero_stats : TransferStats) (role cap : String) (stats : TransferStats) (now : ℕ)
      → record_stats_in sanitize zero_stats role cap stats now s ≡ ok (tt, t)
      → SessionStep sanitize s t

pub data SessionRun (sanitize : String → String) (s : RendezvousSession)
    : RendezvousSession → Type 0 where
  started : SessionRun sanitize s s
  and_then :
      (t u : RendezvousSession)
      → SessionRun sanitize s t
      → SessionStep sanitize t u
      → SessionRun sanitize s u

-- A slot that is claimed stays with its owner.
abbrev pub StaysClaimed : Option SessionPeer → Option SessionPeer → Type 0
StaysClaimed before after =
    (p : SessionPeer)
    → before ≡ some p
    → (q : SessionPeer) × (after ≡ some q) × (q.capability_hash ≡ p.capability_hash)

stays : {a b : Option SessionPeer} → b ≡ a → StaysClaimed a b
stays e p h = (p, e ∙ h, refl)

record_stats_in_peers :
    (sanitize : String → String) (zero_stats : TransferStats) (role cap : String)
    (stats : TransferStats) (now : ℕ) (s t : RendezvousSession)
    → record_stats_in sanitize zero_stats role cap stats now s ≡ ok (tt, t)
    → (t.sender ≡ s.sender) × (t.receiver ≡ s.receiver)
unfolding record_stats_in
record_stats_in_peers sanitize zero_stats role cap stats now s t h =
    elim (Result-cases (authenticate_session_role s role cap)) [
      | inl (peer, a) ↦
          elim (Result-cases (validate_and_sanitize_transfer_stats sanitize role stats)) [
            | inl (v, b) ↦ (ground arith, ground arith)
            | inr (e, b) ↦ absurd (ground arith)
          ]
      | inr (e, a) ↦ absurd (ground arith)
    ]

update_peer_info_in_peers :
    (role cap : String) (info : SelfInfo) (now : ℕ) (s t : RendezvousSession)
    → update_peer_info_in role cap info now s ≡ ok (tt, t)
    → StaysClaimed s.sender t.sender × StaysClaimed s.receiver t.receiver
unfolding update_peer_info_in set_peer peer_for_role
update_peer_info_in_peers role cap info now s t h =
    elim (Result-cases (authenticate_session_role s role cap)) [
      | inl (peer, a) ↦
          let claimed = ((authenticate_session_role_iff s role cap peer).0 a).0 in
          elim (Bool-cases (role == send)) [
            | inl r ↦
                let known : s.sender ≡ some peer = ground arith in
                (
                  λ p h2. (
                    record peer { info = some info; last_update = now },
                    ground arith,
                    ap
                        (λ x.
                          Option.get_or (Option.map (λ (y : SessionPeer). y.capability_hash) x) "")
                        (sym known ∙ h2),
                  ),
                  stays (ground arith),
                )
            | inr nr ↦ elim (Bool-cases (role == recv)) [
              | inl r ↦
                  let known : s.receiver ≡ some peer = ground arith in
                  (
                    stays (ground arith),
                    λ p h2. (
                      record peer { info = some info; last_update = now },
                      ground arith,
                      ap
                          (λ x.
                            Option.get_or (Option.map (λ (y : SessionPeer). y.capability_hash) x)
                              "")
                          (sym known ∙ h2),
                    ),
                  )
              | inr other ↦ absurd (ground arith)
            ]
          ]
      | inr (e, a) ↦ absurd (ground arith)
    ]

register_sender_in_peers :
    (cap : String) (now : ℕ) (s t : RendezvousSession)
    → register_sender_in cap now s ≡ ok (tt, t)
    → StaysClaimed s.sender t.sender × (t.receiver ≡ s.receiver)
unfolding register_sender_in
register_sender_in_peers cap now s t h = elim (Option-cases s.sender) [
  | inl e ↦ (λ p h2. absurd (ground arith), ground arith)
  | inr (p, e) ↦ (stays (ground arith), ground arith)
]

register_receiver_in_peers :
    (cap : String) (now : ℕ) (s t : RendezvousSession)
    → register_receiver_in cap now s ≡ ok (tt, t)
    → (t.sender ≡ s.sender) × StaysClaimed s.receiver t.receiver
unfolding register_receiver_in
register_receiver_in_peers cap now s t h = elim (Option-cases s.receiver) [
  | inl e ↦ (
    elim (Option-cases s.sender) [
      | inl e2 ↦ absurd (ground arith)
      | inr (p, e2) ↦ elim (Bool-cases (verifier_equal p.capability_hash cap)) [
        | inl b ↦ absurd (ground arith)
        | inr b ↦ ground arith
      ]
    ],
    λ p h2. absurd (ground arith),
  )
  | inr (p, e) ↦ (ground arith, stays (ground arith))
]

step_keeps :
    (sanitize : String → String) (s t : RendezvousSession)
    → SessionStep sanitize s t
    → StaysClaimed s.sender t.sender × StaysClaimed s.receiver t.receiver
step_keeps sanitize s t (registers_sender cap now h) =
    let (a, b) = register_sender_in_peers cap now s t h in (a, stays b)
step_keeps sanitize s t (registers_receiver cap now h) =
    let (a, b) = register_receiver_in_peers cap now s t h in (stays a, b)
step_keeps sanitize s t (updates role cap info now h) =
    update_peer_info_in_peers role cap info now s t h
step_keeps sanitize s t (enqueues source dest cap msg h) =
    let (_, _, _, _, a, b) = enqueue_in_lem source dest cap msg s t h in (stays a, stays b)
step_keeps sanitize s t (dequeues role cap out h) =
    let (_, _, _, a, b) = dequeue_in_lem role cap out s t h in (stays a, stays b)
step_keeps sanitize s t (records zero_stats role cap stats now h) =
    let (a, b) = record_stats_in_peers sanitize zero_stats role cap stats now s t h in
    (stays a, stays b)

stays_through :
    {a b c : Option SessionPeer} → StaysClaimed a b → StaysClaimed b c → StaysClaimed a c
stays_through f g p h =
    let (q, e, same) = f p h in let (r, e2, same2) = g q e in (r, e2, same2 ∙ same)

-- After any run of successful requests on a session (registrations, updates, messages put in and
-- taken out, reports), a role that was claimed is claimed with the same verifier.
pub run-StaysClaimed :
    (sanitize : String → String) (s t : RendezvousSession)
    → SessionRun sanitize s t
    → StaysClaimed s.sender t.sender × StaysClaimed s.receiver t.receiver
run-StaysClaimed sanitize s t started = (stays refl, stays refl)
run-StaysClaimed sanitize s t (and_then u _ r h) =
    let (a, b) = run-StaysClaimed sanitize s u r in
    let (c, d) = step_keeps sanitize u t h in (stays_through a c, stays_through b d)
