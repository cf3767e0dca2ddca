-- ===== src/Store/Sessions/Queues.antt =====
-- internal/transport/session_store.go: the queues of a session, in order and within their bounds.
use wormzy.Prelude.{
  ℕ, ◌+◌, ◌≤◌, ◌<◌, String, len, ◌==◌, Text_eq, eq_iff, List, [], ◌∷◌, ◌++◌, length, length-append,
  if◌then◌else◌, ltb, leb, ◌≡◌, ◌≢◌, refl, arith, inl, inr, Bool-cases, ap,
}
use wormzy.Prelude.Dict.{Dict, lookup, insert, lookup-insert}
use wormzy.Mailbox.Message.{MailboxMessage}
use wormzy.Session.{
  MsgPt, SessionPeer, RendezvousSession, Result, ok, ◌>>=◌, ◌>>◌, mailbox_queue_full,
  mailbox_bytes_full, guard, >>=-eq-ok, guard-eq-ok,
}
use wormzy.Store.Operations.{
  authenticate_session_role, queue_bytes, pending_bytes, queue_of, enqueue_in, dequeue_in,
  pop_front, max_pending_mailbox_messages_per_role, max_pending_mailbox_bytes_per_session,
}

-- The bytes of a message, a queue and all queues, with no bound.
abbrev pub message_size : MsgPt → ℕ
message_size m = len m.kind + length m.body

abbrev pub queue_size : List MsgPt → ℕ
queue_size [] = 0
queue_size (m ∷ ms) = message_size m + queue_size ms

abbrev pub pending_size : Dict (List MsgPt) → ℕ
pending_size [] = 0
pending_size ((role, queue) ∷ rest) = queue_size queue + pending_size rest

abbrev pub item_of : MailboxMessage → MsgPt
item_of m = record { kind = m.kind; body = m.body }

queue_bytes-queue_size :
    (total : ℕ) (queue : List MsgPt) (n : ℕ)
    → queue_bytes total queue ≡ ok n
    → n ≡ total + queue_size queue
unfolding queue_bytes
queue_bytes-queue_size total [] n h = ground arith
queue_bytes-queue_size total (m ∷ ms) n h =
    ground (arith, queue_bytes-queue_size (total + (len m.kind + length m.body)) ms n)

pub pending_bytes-pending_size :
    (total : ℕ) (pending : Dict (List MsgPt)) (n : ℕ)
    → pending_bytes total pending ≡ ok n
    → n ≡ total + pending_size pending
unfolding pending_bytes
pending_bytes-pending_size total [] n h = ground arith
pending_bytes-pending_size total ((role, queue) ∷ rest) n h =
    let (sum, e, p) = >>=-eq-ok (queue_bytes total queue) (λ x. pending_bytes x rest) h in
    omega (arith, queue_bytes-queue_size total queue sum e, pending_bytes-pending_size sum rest n p)

queue_size-append : (xs ys : List MsgPt) → queue_size (xs ++ ys) ≡ queue_size xs + queue_size ys
queue_size-append [] ys = omega arith
queue_size-append (x ∷ xs) ys = omega (arith, queue_size-append xs ys)

pub pending_size-insert :
    (role : String) (queue : List MsgPt) (pending : Dict (List MsgPt))
    → pending_size (insert role queue pending) + queue_size (queue_of role pending)
      ≡ pending_size pending + queue_size queue
unfolding insert lookup
pending_size-insert role queue [] = omega arith
pending_size-insert role queue ((r, q) ∷ rest) = elim (Bool-cases (r == role)) [
  | inl same ↦ ground (arith, same)
  | inr other ↦ ground (arith, other, pending_size-insert role queue rest)
]

pub queue_of-insert :
    (role other : String) (queue : List MsgPt) (pending : Dict (List MsgPt))
    → queue_of other (insert role queue pending)
      ≡ (if role == other then queue else queue_of other pending)
queue_of-insert role other queue pending = ground (arith, lookup-insert role other queue pending)

module _ (source dest cap : String) (msg : MailboxMessage) (s t : RendezvousSession)
    (h : enqueue_in source dest cap msg s ≡ ok (tt, t)) where
  abbrev enqueued : RendezvousSession
  enqueued = record s {
    pending = insert dest (queue_of dest s.pending ++ item_of msg ∷ []) s.pending;
  }

  abbrev fits : ℕ → Result (Unit {0} × RendezvousSession)
  fits n =
      guard (leb (n + message_size (item_of msg)) max_pending_mailbox_bytes_per_session)
        mailbox_bytes_full
      >> ok (tt, enqueued)

  -- The parts of an enqueue that succeeds.
  pub enqueue_in_parts :
      (peer : SessionPeer) × (pending : ℕ) × (authenticate_session_role s source cap ≡ ok peer)
      × (length (queue_of dest s.pending) < max_pending_mailbox_messages_per_role)
      × (pending_bytes 0 s.pending ≡ ok pending)
      × (pending + message_size (item_of msg) ≤ max_pending_mailbox_bytes_per_session)
      × (t ≡ record s {
        pending = insert dest (queue_of dest s.pending ++ item_of msg ∷ []) s.pending;
      })
  unfolding enqueue_in
  enqueue_in_parts =
      let room = ltb (length (queue_of dest s.pending)) max_pending_mailbox_messages_per_role in
      let (peer, a, h1) =
        >>=-eq-ok (authenticate_session_role s source cap)
          (λ _. guard room mailbox_queue_full >> (pending_bytes 0 s.pending >>= fits)) h in
      let (l, h2) = guard-eq-ok room mailbox_queue_full (pending_bytes 0 s.pending >>= fits) h1 in
      let (n, p, h3) = >>=-eq-ok (pending_bytes 0 s.pending) fits h2 in
      let (b, h4) =
        guard-eq-ok (leb (n + message_size (item_of msg)) max_pending_mailbox_bytes_per_session)
          mailbox_bytes_full (ok (tt, enqueued)) h3 in
      let e : t ≡ enqueued = ground arith in (peer, n, a, ground arith, p, ground arith, e)

  -- If a message is put in, it stands at the end of the destination's queue, every other queue is
  -- as it was, both limits hold, and the peers are as they were.
  pub enqueue_in_lem :
      (queue_of dest t.pending ≡ queue_of dest s.pending ++ item_of msg ∷ [])
      × ((other : String) → dest ≢ other → queue_of other t.pending ≡ queue_of other s.pending)
      × (length (queue_of dest t.pending) ≤ max_pending_mailbox_messages_per_role)
      × (pending_size t.pending ≤ max_pending_mailbox_bytes_per_session)
      × (t.sender ≡ s.sender)
      × (t.receiver ≡ s.receiver)
  enqueue_in_lem =
      let (peer, n, a, l, p, b, e) = enqueue_in_parts in
      let grown = queue_of dest s.pending ++ item_of msg ∷ [] in
      let at_end : queue_of dest t.pending ≡ grown =
        ground (arith, e, queue_of-insert dest dest grown s.pending, eq_iff dest dest) in
      (
        at_end,
        λ other ne.
            ground (arith, e, queue_of-insert dest other grown s.pending, eq_iff dest other),
        omega (
          arith,
          ap length at_end,
          length-append (queue_of dest s.pending) (item_of msg ∷ []),
          l,
        ),
        omega (
          arith,
          ap (λ (x : RendezvousSession). pending_size x.pending) e,
          pending_bytes-pending_size 0 s.pending n p,
          pending_size-insert dest grown s.pending,
          queue_size-append (queue_of dest s.pending) (item_of msg ∷ []),
          b,
        ),
        ap (λ (x : RendezvousSession). x.sender) e,
        ap (λ (x : RendezvousSession). x.receiver) e,
      )

module _ (role cap : String) (out : MailboxMessage) (s t : RendezvousSession)
    (h : dequeue_in role cap s ≡ ok (out, t)) where
  pub dequeue_in_parts : pop_front role (queue_of role s.pending) s ≡ ok (out, t)
  unfolding dequeue_in
  dequeue_in_parts = let (peer, a, p) = >>=-eq-ok (authenticate_session_role s role cap) _ h in p

  -- If a message is taken out, it is the oldest of the role's queue, every other queue is as it
  -- was, the queued bytes do not grow, and the peers are as they were.
  pub dequeue_in_lem :
      (queue_of role s.pending ≡ item_of out ∷ queue_of role t.pending)
      × ((other : String) → role ≢ other → queue_of other t.pending ≡ queue_of other s.pending)
      × (pending_size t.pending ≤ pending_size s.pending)
      × (t.sender ≡ s.sender)
      × (t.receiver ≡ s.receiver)
  dequeue_in_lem = from (queue_of role s.pending) refl dequeue_in_parts
    where
      from :
          (q : List MsgPt)
          → queue_of role s.pending ≡ q
          → pop_front role q s ≡ ok (out, t)
          → (queue_of role s.pending ≡ item_of out ∷ queue_of role t.pending)
            × ((other : String)
                → role ≢ other
                → queue_of other t.pending ≡ queue_of other s.pending)
            × (pending_size t.pending ≤ pending_size s.pending)
            × (t.sender ≡ s.sender)
            × (t.receiver ≡ s.receiver)
      from [] e p = absurd (unfold pop_front in ground arith)
      from (m ∷ ms) e p =
          let left : t ≡ record s { pending = insert role ms s.pending } =
            unfold pop_front in ground arith in
          let first : item_of out ≡ m = unfold pop_front in ground arith in
          (
            ground
                (arith, e, left, first, queue_of-insert role role ms s.pending, eq_iff role role),
            λ other ne.
                ground (arith, left, queue_of-insert role other ms s.pending, eq_iff role other),
            omega (
              arith,
              ap (λ (x : RendezvousSession). pending_size x.pending) left,
              pending_size-insert role ms s.pending,
              ap queue_size e,
            ),
            ap (λ (x : RendezvousSession). x.sender) left,
            ap (λ (x : RendezvousSession). x.receiver) left,
          )
