-- ===== src/Store/Requests.antt =====
-- internal/transport/session_store.go: the store's methods. A list of tries is the schedule of one
-- call of `modify`; `none` is a call whose context ends before it has an answer.
use wormzy.Prelude.{ℕ, String, ◌==◌, Text_eq, Option, none, some, List, [], ◌∷◌, if◌then◌else◌}
use wormzy.Redis.{Redis}
use wormzy.Role.{opposite_role, valid_role}
use wormzy.Mailbox.Capability.{valid_verifier}
use wormzy.Mailbox.Message.{MailboxMessage, validate_mailbox_message}
use wormzy.Mailbox.Message
use wormzy.Session.{
  SelfInfo, TransferStats, SessionPeer, RendezvousSession, Result, ok, err, ◌>>=◌, ◌>>◌, guard,
  session_not_found, invalid_role, no_pending_message, mailbox_unavailable, invalid_message,
  invalid_body,
}
use wormzy.Store.Json.{Json}
use wormzy.Store.Lifetime.{SessionStore}
use wormzy.Store.Create.{create_sender_session}
use wormzy.Store.Modify.{Try, modify, load}
use wormzy.Store.Operations.{
  register_sender_in, register_receiver_in, update_peer_info_in, enqueue_in, dequeue_in,
  record_stats_in, authenticate_session_role, peer_for_role, hide,
}

abbrev message_error : Message.Received (Unit {0}) → Result (Unit {0})
message_error (Message.ok _) = ok tt
message_error (Message.err e) = err invalid_message

module _ ⦃R : Redis⦄ ⦃J : Json R.Value⦄ where
  open R use {Db}
  open J use {valid}

  -- A call's answer and the state that it leaves.
  abbrev pub Answer : Type 0 → Type 0
  Answer A = Option (Result A × Db)

  -- The guards before a transaction: the first that fails is the answer.
  abbrev checked : {A : Type 0} → Result (Unit {0}) → Db → Answer A → Answer A
  checked (ok _) d call = call
  checked (err e) d call = some (err e, d)

  abbrev hidden_answer : {A : Type 0} → Answer A → Answer A
  hidden_answer none = none
  hidden_answer (some (r, d)) = some (hide r, d)

  abbrev or_modify :
      {A : Type 0}
      → A
      → Result (Option RendezvousSession) × Db
      → Answer (A × RendezvousSession)
      → Answer (A × RendezvousSession)
  or_modify a (err e, d) call = some (err e, d)
  or_modify a (ok (some sess), d) call = some (ok (a, sess), d)
  or_modify a (ok none, d) call = call

  -- registerSender
  unfoldable pub register_sender :
      SessionStore
      → String
      → String
      → ℕ
      → ℕ
      → ℕ
      → List Try
      → Db
      → Answer (Unit {0} × RendezvousSession)
  unfolding create_sender_session modify
  register_sender st code capability_hash asked at now tries d =
      checked (guard (valid_verifier capability_hash) mailbox_unavailable) d (
        or_modify tt (create_sender_session st code capability_hash asked at d)
          (modify st code (register_sender_in capability_hash now) tries))

  -- A session that is not there is reported like one that is taken.
  abbrev unavailable : {A : Type 0} → Answer A → Answer A
  unavailable none = none
  unavailable (some (err session_not_found, d)) = some (err mailbox_unavailable, d)
  unavailable (some (r, d)) = some (r, d)

  -- registerReceiver
  unfoldable pub register_receiver :
      SessionStore → String → String → ℕ → List Try → Db → Answer (Unit {0} × RendezvousSession)
  unfolding modify
  register_receiver st code capability_hash now tries d =
      checked (guard (valid_verifier capability_hash) mailbox_unavailable) d
        (unavailable (modify st code (register_receiver_in capability_hash now) tries))

  -- updatePeerInfo
  unfoldable pub update_peer_info :
      SessionStore
      → String
      → String
      → String
      → SelfInfo
      → ℕ
      → List Try
      → Db
      → Answer (Unit {0} × RendezvousSession)
  unfolding modify
  update_peer_info st code role capability_hash info now tries d =
      checked (guard (valid_role role) invalid_role) d
        (hidden_answer (modify st code (update_peer_info_in role capability_hash info now) tries))

  abbrev enqueue_guards : String → String → MailboxMessage → Result (Unit {0})
  enqueue_guards source_role dest_role msg = do
    guard (valid_role source_role) invalid_role
    guard (valid_role dest_role) invalid_role
    guard (dest_role == opposite_role source_role) invalid_role
    message_error (validate_mailbox_message msg)
    guard (valid msg.body) invalid_body

  -- enqueue
  unfoldable pub enqueue :
      SessionStore
      → String
      → String
      → String
      → String
      → MailboxMessage
      → List Try
      → Db
      → Answer (Unit {0} × RendezvousSession)
  unfolding modify
  enqueue st code source_role dest_role capability_hash msg tries d =
      checked (enqueue_guards source_role dest_role msg) d (
        hidden_answer (modify st code (enqueue_in source_role dest_role capability_hash msg) tries))

  -- One round of dequeue's loop: an empty queue is polled again.
  abbrev polled :
      {A : Type 0}
      → Answer (A × RendezvousSession)
      → Answer (A × RendezvousSession)
      → Answer (A × RendezvousSession)
  polled none next = none
  polled (some (err no_pending_message, d)) next = next
  polled (some (r, d)) next = some (hide r, d)

  unfoldable pub dequeue_rounds :
      SessionStore
      → String
      → String
      → String
      → List (List Try)
      → Answer (MailboxMessage × RendezvousSession)
  unfolding modify
  dequeue_rounds st code role capability_hash [] = none
  dequeue_rounds st code role capability_hash (tries ∷ rounds) =
      let next = dequeue_rounds st code role capability_hash rounds in
      polled (modify st code (dequeue_in role capability_hash) tries) next

  -- dequeue
  unfoldable pub dequeue :
      SessionStore
      → String
      → String
      → String
      → List (List Try)
      → Db
      → Answer (MailboxMessage × RendezvousSession)
  unfolding dequeue_rounds
  dequeue st code role capability_hash rounds d =
      checked (guard (valid_role role) invalid_role) d
        (dequeue_rounds st code role capability_hash rounds)

  -- recordStats
  unfoldable pub record_stats :
      (String → String)
      → TransferStats
      → SessionStore
      → String
      → String
      → String
      → TransferStats
      → ℕ
      → List Try
      → Db
      → Answer (Unit {0} × RendezvousSession)
  unfolding modify
  record_stats sanitize zero_stats st code role capability_hash stats now tries d =
      checked (guard (valid_role role) invalid_role) d (
        hidden_answer (
          modify st code (record_stats_in sanitize zero_stats role capability_hash stats now)
            tries))

  -- authenticate: reads only, and removes a session that cannot be used.
  unfoldable pub authenticate :
      SessionStore → String → String → String → ℕ → ℕ → Db → Result SessionPeer × Db
  unfolding load
  authenticate st code role capability_hash read_at clock d =
      if valid_role role
      then (let (loaded, n) = load st code read_at clock d in
          (hide (loaded >>= λ sess. authenticate_session_role sess role capability_hash), n))
      else (err invalid_role, d)

  -- One round of waitForPeer: `none` is a peer that has not published yet.
  abbrev published : RendezvousSession → String → String → Result (Option SelfInfo)
  published sess role capability_hash = do
    own ← authenticate_session_role sess role capability_hash
    ok (elim (peer_for_role sess (opposite_role role)) [ none ↦ none | some peer ↦ peer.info ])

  unfoldable pub wait_for_peer_round :
      SessionStore → String → String → String → ℕ → ℕ → Db → Result (Option SelfInfo) × Db
  unfolding load
  wait_for_peer_round st code role capability_hash read_at clock d =
      if valid_role role
      then (let (loaded, n) = load st code read_at clock d in
          (elim loaded [ err e ↦ hide (err e) | ok sess ↦ published sess role capability_hash ], n))
      else (err invalid_role, d)
