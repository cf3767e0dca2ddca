-- ===== src/Completion/Talk.antt =====
-- internal/transport/transfer_completion.go, `runTransferCompletionProtocol`: both sides over one
-- stream, where a receive waits for the message that the other side sends.
use wormzy.Prelude.{
  ℕ, ◌+◌, ◌*◌, String, true, ◌==◌, Nat_eq, Text_eq, Option, none, some, List, [], ◌∷◌, ◌++◌,
  if◌then◌else◌, ◌≡◌, refl, ap, arith, inl, inr, Option-cases, Bool-cases, false, Bool,
}
use wormzy.Prelude.Duplex.{Duplex}
use wormzy.Role.{send, recv}
use wormzy.Completion.{
  CompletionError, unexpected_end, invalid_mode, Outcome, done, failed, and_then, take_full,
  TransferCompletionMessage, Primitives, Transfer, new_message, verify_message, write_message,
  read_message, Act, sends, receives, sender_acts, receiver_acts,
}
use wormzy.Completion.Messages.{Outcome-cases}
use wormzy.Completion.Frames.{take_full-more}

-- A side in the middle of its protocol, or when it has returned.
pub data Side : Type 0 where
  acting : List Act → Side
  ended : Outcome (Unit {0}) → Side

-- The calls of a mode.
abbrev pub start_of : String → Side
start_of mode =
    if mode == send
    then acting sender_acts
    else if mode == recv
    then acting receiver_acts
    else ended (failed invalid_mode)

-- The frame has not come in full.
abbrev pub is_short : CompletionError → Bool
is_short unexpected_end = true
is_short _ = false

module _ ⦃P : Primitives⦄ (t : Transfer) where
  -- What is left to do after a message was sent.
  abbrev pub sent : List Act → List ℕ → Outcome (List ℕ) → Side × (List ℕ × List ℕ)
  sent acts inbox (failed e) = (ended (failed e), (inbox, []))
  sent acts inbox (done frame) = (acting acts, (inbox, frame))

  abbrev pub verified : List Act → Outcome (Unit {0}) → Side
  verified acts (failed e) = ended (failed e)
  verified acts (done _) = acting acts

  -- A receive waits while its frame has not come in full; then it is verified.
  abbrev pub received :
      String
      → List Act
      → List ℕ
      → Outcome (TransferCompletionMessage × List ℕ)
      → Option (Side × (List ℕ × List ℕ))
  received role acts inbox (failed e) =
      if is_short e then none else some (ended (failed e), (inbox, []))
  received role acts inbox (done (message, left)) =
      some (verified acts (verify_message message t role), (left, []))

  -- The next call of a side, while its stream is open.
  unfoldable pub next_call : Side → List ℕ → Option (Side × (List ℕ × List ℕ))
  next_call (ended result) inbox = none
  next_call (acting []) inbox = some (ended (done tt), (inbox, []))
  next_call (acting (sends role ∷ acts)) inbox =
      some (sent acts inbox (and_then (new_message t role) write_message))
  next_call (acting (receives role ∷ acts)) inbox = received role acts inbox (read_message inbox)

  -- A message that has come in full, or that is refused, is not changed by what comes after it.
  read_message-more :
      (inbox left more : List ℕ) (m : TransferCompletionMessage)
      → read_message inbox ≡ done (m, left)
      → read_message (inbox ++ more) ≡ done (m, left ++ more)
  unfolding read_message
  read_message-more [] left more m h = absurd (ground (arith, h))
  read_message-more (high ∷ []) left more m h = absurd (ground (arith, h))
  read_message-more (high ∷ low ∷ bytes) left more m h =
      let size = high * 256 + low in
      elim (Option-cases (take_full size bytes)) [
        | inl short ↦ absurd (ground (arith, short, h))
        | inr ((raw, rest), full) ↦ elim (Option-cases (P.decode raw)) [
          | inl bad ↦ absurd (ground (arith, full, bad, h))
          | inr (got, good) ↦
              ground (arith, full, good, h, take_full-more size bytes raw rest more full)
        ]
      ]

  read_message-refused :
      (inbox more : List ℕ) (e : CompletionError)
      → is_short e ≡ false
      → read_message inbox ≡ failed e
      → read_message (inbox ++ more) ≡ failed e
  unfolding read_message
  read_message-refused [] more e k h = absurd (ground (arith, h, k))
  read_message-refused (high ∷ []) more e k h = absurd (ground (arith, h, k))
  read_message-refused (high ∷ low ∷ bytes) more e k h =
      let size = high * 256 + low in
      elim (Option-cases (take_full size bytes)) [
        | inl short ↦ ground (arith, short, h, k)
        | inr ((raw, rest), full) ↦ elim (Option-cases (P.decode raw)) [
          | inl bad ↦ ground (arith, full, bad, h, take_full-more size bytes raw rest more full)
          | inr (got, good) ↦
              ground (arith, full, good, h, take_full-more size bytes raw rest more full)
        ]
      ]

  sent-more :
      (acts : List Act) (inbox rest out more : List ℕ) (frame : Outcome (List ℕ)) (s : Side)
      → sent acts inbox frame ≡ (s, (rest, out))
      → sent acts (inbox ++ more) frame ≡ (s, (rest ++ more, out))
  sent-more acts inbox rest out more (done frame) s h = ground (arith, h)
  sent-more acts inbox rest out more (failed e) s h = ground (arith, h)

  pub next_call-more :
      (s side : Side) (inbox rest out more : List ℕ)
      → next_call s inbox ≡ some (side, (rest, out))
      → next_call s (inbox ++ more) ≡ some (side, (rest ++ more, out))
  unfolding next_call
  next_call-more (ended result) side inbox rest out more h = absurd (ground (arith, h))
  next_call-more (acting []) side inbox rest out more h = ground (arith, h)
  next_call-more (acting (sends role ∷ acts)) side inbox rest out more h =
      let frame = and_then (new_message t role) write_message in
      ap (λ x. some x) (sent-more acts inbox rest out more frame side (ground (arith, h)))
  next_call-more (acting (receives role ∷ acts)) side inbox rest out more h =
      elim (Outcome-cases (read_message inbox)) [
        | inl ((m, left), got) ↦
            let said : verified acts (verify_message m t role) ≡ side = ground (arith, h, got) in
            let same : left ≡ rest = ground (arith, h, got) in
            let silent : [] ≡ out = ground (arith, h, got) in
            rw (read_message-more inbox left more m got, said, same, silent) refl
        | inr (e, refused) ↦ elim (Bool-cases (is_short e)) [
          | inl short ↦ absurd (ground (arith, h, refused, short))
          | inr whole ↦
              let said : ended (failed e) ≡ side = ground (arith, h, refused, whole) in
              let same : inbox ≡ rest = ground (arith, h, refused, whole) in
              let silent : [] ≡ out = ground (arith, h, refused, whole) in
              rw (read_message-refused inbox more e whole refused, whole, said, same, silent) refl
        ]
      ]

  abbrev pub protocol_duplex : Duplex Side
  protocol_duplex = record { advance = next_call; advance-more = next_call-more }
