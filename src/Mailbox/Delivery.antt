-- ===== src/Mailbox/Delivery.antt =====
-- What `protocolMailbox` delivers: nothing is lost, and nothing is reordered.
use wormzy.Prelude.{
  ◌≤◌, String, true, false, Text_eq, none, some, length, length-append, All, All-append, contains,
  List, [], ◌∷◌, ◌++◌, ◌≡◌, sym, ◌∙◌, arith, inl, inr, Bool-cases, Option-cases,
}
use mathlib.Core.List.{append_assoc}
use wormzy.Mailbox.Message.{
  MailboxMessage, ok, ProtocolMailbox, defer_message, take_deferred, receive_loop, receive_type,
  max_deferred_mailbox_messages,
}

-- The messages that a receiver has not yet handed out, oldest first.
abbrev pub pending : ProtocolMailbox → List MailboxMessage
pending m = m.deferred ++ m.incoming

abbrev pub Unaccepted : List String → List MailboxMessage → Type 0
Unaccepted accepted = All λ message. contains accepted message.kind ≡ false

-- `message` is the first of its kind in `before`, and `after` has the others in their order.
pub record TakesFirst (accepted : List String) (message : MailboxMessage)
    (before after : List MailboxMessage) : Type 0 where
  pub skipped : List MailboxMessage
  pub rest : List MailboxMessage
  pub of_kind : contains accepted message.kind ≡ true
  pub none_earlier : Unaccepted accepted skipped
  pub was : before ≡ skipped ++ message ∷ rest
  pub is : after ≡ skipped ++ rest

module _ (accepted : List String) where
  pub take_deferred-TakesFirst :
      (xs : List MailboxMessage) (message : MailboxMessage) (others : List MailboxMessage)
      → take_deferred accepted xs ≡ some (message, others)
      → TakesFirst accepted message xs others
  unfolding take_deferred
  take_deferred-TakesFirst [] message others h = cc
  take_deferred-TakesFirst (x ∷ xs) message others h =
      elim (Bool-cases (contains accepted x.kind)) [
        | inl hit ↦ record {
          skipped = [];
          rest = xs;
          of_kind = ground (arith, hit);
          none_earlier = tt;
          was = ground (arith, hit);
          is = ground (arith, hit);
        }
        | inr miss ↦ elim (Option-cases (take_deferred accepted xs)) [
          | inl e ↦ absurd (ground (arith, miss, e))
          | inr (found, e) ↦
              let t = take_deferred-TakesFirst xs found.0 found.1 e in
              record {
                skipped = x ∷ t.skipped;
                rest = t.rest;
                of_kind = ground (arith, miss, e, t.of_kind);
                none_earlier = (miss, t.none_earlier);
                was = ground (arith, miss, e, t.was);
                is = ground (arith, miss, e, t.is);
              }
        ]
      ]

  pub take_deferred-none :
      (xs : List MailboxMessage) → take_deferred accepted xs ≡ none → Unaccepted accepted xs
  unfolding take_deferred
  take_deferred-none [] h = tt
  take_deferred-none (x ∷ xs) h = ground (arith, take_deferred-none xs)

  receive_loop-TakesFirst :
      (deferred incoming : List MailboxMessage) (message : MailboxMessage) (m : ProtocolMailbox)
      → Unaccepted accepted deferred
      → receive_loop accepted deferred incoming ≡ (ok message, m)
      → TakesFirst accepted message (deferred ++ incoming) (pending m)
  unfolding receive_loop
  receive_loop-TakesFirst deferred [] message m u h = absurd (ground arith)
  receive_loop-TakesFirst deferred (x ∷ xs) message m u h =
      elim (Bool-cases (contains accepted x.kind)) [
        | inl hit ↦
            let d : m.deferred ≡ deferred = ground (arith, hit) in
            let i : m.incoming ≡ xs = ground (arith, hit) in
            let same : x ≡ message = ground (arith, hit) in
            record {
              skipped = deferred;
              rest = xs;
              of_kind = rw (← same) hit;
              none_earlier = u;
              was = rw same;
              is = rw (d, i);
            }
        | inr miss ↦
            let kept : receive_loop accepted (deferred ++ x ∷ []) xs ≡ (ok message, m) =
              unfold defer_message in ground (arith, miss) in
            let t =
              receive_loop-TakesFirst (deferred ++ x ∷ []) xs message m
                (All-append _ deferred (x ∷ []) u (miss, tt)) kept in
            record {
              skipped = t.skipped;
              rest = t.rest;
              of_kind = t.of_kind;
              none_earlier = t.none_earlier;
              was = sym (append_assoc deferred (x ∷ []) xs) ∙ t.was;
              is = t.is;
            }
      ]

  -- If receiveType hands out a message, it is the oldest message of an accepted type among those
  -- kept and those to come, and all others are still there in their order.
  pub receive_type-TakesFirst :
      (m : ProtocolMailbox) (message : MailboxMessage) (n : ProtocolMailbox)
      → receive_type m accepted ≡ (ok message, n)
      → TakesFirst accepted message (pending m) (pending n)
  unfolding receive_type
  receive_type-TakesFirst m message n h = elim (Option-cases (take_deferred accepted m.deferred)) [
    | inl e ↦
        receive_loop-TakesFirst m.deferred m.incoming message n (take_deferred-none m.deferred e)
          (ground (arith, e))
    | inr (found, e) ↦
        let t = take_deferred-TakesFirst m.deferred found.0 found.1 e in
        let same : found.0 ≡ message = ground (arith, e) in
        let d : n.deferred ≡ found.1 = ground (arith, e) in
        let i : n.incoming ≡ m.incoming = ground (arith, e) in
        record {
          skipped = t.skipped;
          rest = t.rest ++ m.incoming;
          of_kind = rw (← same) t.of_kind;
          none_earlier = t.none_earlier;
          was = rw (t.was, same) (append_assoc t.skipped (message ∷ t.rest) m.incoming);
          is = rw (d, i, t.is) (append_assoc t.skipped t.rest m.incoming);
        }
  ]

  receive_loop_bound :
      (deferred incoming : List MailboxMessage)
      → length deferred ≤ max_deferred_mailbox_messages
      → length (receive_loop accepted deferred incoming).1.deferred ≤ max_deferred_mailbox_messages
  unfolding receive_loop defer_message
  receive_loop_bound deferred [] h = h
  receive_loop_bound deferred (x ∷ xs) h =
      ground (arith, receive_loop_bound (deferred ++ x ∷ []) xs, length-append deferred (x ∷ []))

  take_deferred_bound :
      (xs : List MailboxMessage) (message : MailboxMessage) (others : List MailboxMessage)
      → take_deferred accepted xs ≡ some (message, others)
      → length others ≤ length xs
  unfolding take_deferred
  take_deferred_bound [] message others h = cc
  take_deferred_bound (x ∷ xs) message others h = elim (Option-cases (take_deferred accepted xs)) [
    | inl e ↦ ground (arith, e)
    | inr (found, e) ↦ ground (arith, e, take_deferred_bound xs found.0 found.1 e)
  ]

  -- If at most 16 messages are kept before a call of receiveType, at most 16 are kept after it,
  -- however it ends.
  pub receive_type_bound :
      (m : ProtocolMailbox)
      → length m.deferred ≤ max_deferred_mailbox_messages
      → length (receive_type m accepted).1.deferred ≤ max_deferred_mailbox_messages
  unfolding receive_type
  receive_type_bound m h = elim (Option-cases (take_deferred accepted m.deferred)) [
    | inl e ↦ rw (e, receive_type) (receive_loop_bound m.deferred m.incoming h)
    | inr (found, e) ↦
        let l = take_deferred_bound m.deferred found.0 found.1 e in
        rw (e, receive_type) (omega arith)
  ]
