-- ===== src/Completion/Conversation.antt =====
-- internal/transport/transfer_completion.go: `runTransferCompletionProtocol`, on both sides.
use wormzy.Prelude.{ℕ, String, Nat_eq, Text_eq, List, [], ◌∷◌, ◌≡◌, arith, ◌⊎◌, inl, inr}
use wormzy.Role.{send, recv}
use wormzy.Completion.{
  CompletionError, done, failed, and_then, TransferCompletionMessage, Primitives, Transfer,
  new_message, verify_message, write_message, read_message, Act, sends, receives, run_acts,
  run_protocol, receiver_verified, sender_confirmed, receiver_finished, sender_finished,
}
use wormzy.Completion.Messages.{Outcome-cases}

module _ ⦃P : Primitives⦄ (t : Transfer) where
  -- The next message of a stream verifies for a role and leaves the rest.
  pub record Hears (role : String) (input rest : List ℕ) : Type 0 where
    pub message : TransferCompletionMessage
    pub reads : read_message input ≡ done (message, rest)
    pub verifies : verify_message message t role ≡ done tt

  receives_lem :
      (role : String) (acts : List Act) (input out : List ℕ)
      → run_acts t (receives role ∷ acts) input ≡ (out, done tt)
      → (rest : List ℕ) × Hears role input rest × (run_acts t acts rest ≡ (out, done tt))
  unfolding run_acts
  receives_lem role acts input out h = elim (Outcome-cases (read_message input)) [
    | inl ((m, rest), r) ↦ elim (Outcome-cases (verify_message m t role)) [
      | inl (_, v) ↦ (rest, record { message = m; reads = r; verifies = v }, ground arith)
      | inr (e, v) ↦ absurd (ground arith)
    ]
    | inr (e, r) ↦ absurd (ground arith)
  ]

  sends_lem :
      (role : String) (acts : List Act) (input out : List ℕ)
      → run_acts t (sends role ∷ acts) input ≡ (out, done tt)
      → (left : List ℕ) × (run_acts t acts input ≡ (left, done tt))
  unfolding run_acts
  sends_lem role acts input out h =
      elim (Outcome-cases (and_then (new_message t role) write_message)) [
        | inl (frame, f) ↦ ((run_acts t acts input).0, ground arith)
        | inr (e, f) ↦ absurd (ground arith)
      ]

  -- A sender that completes has read two messages, one after the other, that verify for its
  -- transfer: the first as receiver-verified, the second as receiver-finished.
  pub run_protocol_sender :
      (input out : List ℕ)
      → run_protocol t send input ≡ (out, done tt)
      → (rest left : List ℕ) × Hears receiver_verified input rest
        × Hears receiver_finished rest left
  unfolding run_protocol
  run_protocol_sender input out h =
      let (rest, first, h1) = receives_lem receiver_verified _ input out h in
      let (o1, h2) = sends_lem sender_confirmed _ rest out h1 in
      let (left, second, h3) = receives_lem receiver_finished _ rest o1 h2 in
      (rest, left, first, second)

  -- A receiver that completes has read two messages, one after the other, that verify for its
  -- transfer: the first as sender-confirmed, the second as sender-finished.
  pub run_protocol_receiver :
      (input out : List ℕ)
      → run_protocol t recv input ≡ (out, done tt)
      → (rest left : List ℕ) × Hears sender_confirmed input rest × Hears sender_finished rest left
  unfolding run_protocol
  run_protocol_receiver input out h =
      let (o1, h1) = sends_lem receiver_verified _ input out h in
      let (rest, first, h2) = receives_lem sender_confirmed _ input o1 h1 in
      let (o2, h3) = sends_lem receiver_finished _ rest o1 h2 in
      let (left, second, h4) = receives_lem sender_finished _ rest o2 h3 in
      (rest, left, first, second)

  -- The sender sends nothing before the receiver's first message verifies.
  pub run_protocol_silent :
      (input : List ℕ) (e : CompletionError) (m : TransferCompletionMessage) (rest : List ℕ)
      → (read_message input ≡ failed e)
        ⊎ ((read_message input ≡ done (m, rest))
            × (verify_message m t receiver_verified ≡ failed e))
      → run_protocol t send input ≡ ([], failed e)
  unfolding run_protocol run_acts
  run_protocol_silent input e m rest (inl h) = ground (arith, h)
  run_protocol_silent input e m rest (inr (r, v)) = ground (arith, r, v)
