-- ===== src/Completion/Completes.antt =====
-- internal/transport/transfer_completion.go, `runTransferCompletionProtocol`: both sides of one
-- transfer complete, however they interleave.
use wormzy.Prelude.{
  ℕ, ◌+◌, ◌≤◌, ◌<◌, ◌/◌, ◌%◌, String, true, Nat_eq, Text_eq, none, some, List, [], ◌∷◌, ◌++◌,
  length, ◌≡◌, refl, ap, sym, ◌∙◌, arith,
}
use mathlib.Core.List.{append-nil}
use wormzy.Prelude.Duplex.{Pair, Runs, Runs-end, by_left, by_right}
use wormzy.Role.{send, recv}
use wormzy.Completion.{
  Outcome, done, and_then, TransferCompletionMessage, Primitives, Transfer, checked, new_message,
  verify_message, write_message, read_message, Act, sends, receives, receiver_verified,
  sender_confirmed, receiver_finished, sender_finished, max_message_size, valid_completion_role,
  completion_mac, mac_bytes,
}
use wormzy.Encoding.{hex_encode}
use wormzy.Completion.Messages.{verify-new_message}
use wormzy.Completion.Frames.{read_message-write_message}
use wormzy.Completion.Talk.{Side, acting, ended, start_of, next_call, protocol_duplex}

-- Both sides have completed the protocol.
abbrev pub completed : Pair Side
completed = record { left = ended (done tt); right = ended (done tt); to_left = []; to_right = [] }

module _ ⦃P : Primitives⦄ (t : Transfer) where
  -- A transfer that both sides hold, and whose messages JSON carries within the size limit.
  pub record Carries : Type 0 where
    pub size : ℕ
    pub well_formed :
        (role : String) → valid_completion_role role ≡ true → checked t role ≡ done size
    pub carried :
        (role : String) (m : TransferCompletionMessage)
        → new_message t role ≡ done m
        → (P.decode (P.marshal m) ≡ some m)
          × (0 < length (P.marshal m))
          × (length (P.marshal m) ≤ max_message_size)

  -- A message's frame, which the other side reads and verifies.
  record Frame (role : String) : Type 0 where
    pub bytes : List ℕ
    pub message : TransferCompletionMessage
    pub written : and_then (new_message t role) write_message ≡ done bytes
    pub read : (rest : List ℕ) → read_message (bytes ++ rest) ≡ done (message, rest)
    pub accepted : verify_message message t role ≡ done tt

  new_message-done :
      Carries
      → (role : String) → valid_completion_role role ≡ true
      → (m : TransferCompletionMessage) × (new_message t role ≡ done m)
  unfolding new_message completion_mac
  new_message-done c role v = (
    record { role = role; mac = hex_encode (mac_bytes t role c.size) },
    ground (arith, c.well_formed role v),
  )

  write_message-done :
      (m : TransferCompletionMessage)
      → 0 < length (P.marshal m)
      → length (P.marshal m) ≤ max_message_size
      → (bytes : List ℕ) × (write_message m ≡ done bytes)
  unfolding write_message
  write_message-done m l u =
      (length (P.marshal m) / 256 ∷ length (P.marshal m) % 256 ∷ P.marshal m, ground (arith, l, u))

  Carries-Frame : Carries → (role : String) → valid_completion_role role ≡ true → Frame role
  Carries-Frame c role v =
      let (m, n) = new_message-done c role v in
      let (d, l, u) = c.carried role m n in
      let (bytes, w) = write_message-done m l u in
      record {
        bytes = bytes;
        message = m;
        written = ground (arith, n, w);
        read = λ rest. read_message-write_message m bytes rest d w;
        accepted = verify-new_message t role m n;
      }

  send_next :
      (role : String) (f : Frame role) (acts : List Act) (inbox : List ℕ)
      → next_call t (acting (sends role ∷ acts)) inbox ≡ some (acting acts, (inbox, f.bytes))
  unfolding next_call
  send_next role f acts inbox = rw f.written refl

  receive_next :
      (role : String) (f : Frame role) (acts : List Act)
      → next_call t (acting (receives role ∷ acts)) f.bytes ≡ some (acting acts, ([], []))
  unfolding next_call
  receive_next role f acts =
      let read : read_message f.bytes ≡ done (f.message, []) =
        ap (λ bytes. read_message bytes) (sym (append-nil f.bytes)) ∙ f.read [] in
      rw (read, f.accepted) refl

  finish_next :
      (inbox : List ℕ) → next_call t (acting []) inbox ≡ some (ended (done tt), (inbox, []))
  unfolding next_call
  finish_next inbox = refl

  -- Both sides at the start of the protocol.
  abbrev pub starts : Pair Side
  starts = record { left = start_of send; right = start_of recv; to_left = []; to_right = [] }

  -- The protocol, each receive after the send that it waits for.
  conversation : Carries → Runs (protocol_duplex t) 10 starts completed
  unfolding valid_completion_role
  conversation c =
      let v = Carries-Frame c receiver_verified refl in
      let w = Carries-Frame c sender_confirmed refl in
      let x = Carries-Frame c receiver_finished refl in
      let y = Carries-Frame c sender_finished refl in
      let d = protocol_duplex t in
      let end = completed in
      by_right d 9 _ _ _ [] [] [] _ end (send_next _ v _ []) (
        by_left d 8 _ _ _ v.bytes [] [] [] end (receive_next _ v _) (
          by_left d 7 _ _ _ [] [] [] _ end (send_next _ w _ []) (
            by_right d 6 _ _ _ [] w.bytes [] [] end (receive_next _ w _) (
              by_right d 5 _ _ _ [] [] [] _ end (send_next _ x _ []) (
                by_left d 4 _ _ _ x.bytes [] [] [] end (receive_next _ x _) (
                  by_left d 3 _ _ _ [] [] [] _ end (send_next _ y _ []) (
                    by_right d 2 _ _ _ [] y.bytes [] [] end (receive_next _ y _) (
                      by_left d 1 _ _ _ [] [] [] [] end (finish_next [])
                        (by_right d 0 _ _ _ [] [] [] [] end (finish_next []) refl)))))))))

  no_move : (result : Outcome (Unit {0})) (inbox : List ℕ) → next_call t (ended result) inbox ≡ none
  unfolding next_call
  no_move result inbox = refl

  -- If both sides hold the same well-formed transfer, and JSON carries the messages that they make
  -- within the size limit, then both complete: after any calls of the two sides, in any order in
  -- which a receive waits for its message, they can go on, and after 10 steps in all, the two
  -- returns included, both have returned with success.
  pub starts-completed :
      (j : ℕ) (q : Pair Side)
      → Carries
      → Runs (protocol_duplex t) j starts q
      → (i : ℕ) × ((j + i ≡ 10) × Runs (protocol_duplex t) i q completed)
  starts-completed j q c run =
      Runs-end (protocol_duplex t) 10 j starts q completed
        (no_move (done tt) [], no_move (done tt) []) (conversation c) run
