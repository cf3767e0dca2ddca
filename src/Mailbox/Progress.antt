-- ===== src/Mailbox/Progress.antt =====
-- `receiveType` finds what is there: an accepted message is handed out, unless the limit on
-- deferred messages or an invalid envelope comes before it.
use wormzy.Prelude.{
  subst, ◌+◌, ◌≤◌, String, true, Text_eq, length, length-append, All, contains, List, [], ◌∷◌, ◌++◌,
  ◌≡◌, refl, ap, sym, ◌∙◌, arith, inl, inr, Option-cases,
}
use mathlib.Core.List.{append_assoc}
use wormzy.Mailbox.Message.{
  MailboxMessage, ok, ProtocolMailbox, validate_mailbox_message, defer_message, take_deferred,
  receive_loop, receive_type, max_deferred_mailbox_messages,
}
use wormzy.Mailbox.Delivery.{Unaccepted, pending, take_deferred-none, take_deferred-TakesFirst}

abbrev pub AllValid : List MailboxMessage → Type 0
AllValid = All λ message. validate_mailbox_message message ≡ ok tt

module _ (accepted : List String) (message : MailboxMessage)
    (hit : contains accepted message.kind ≡ true) where
  receive_loop_finds :
      (deferred skipped rest : List MailboxMessage)
      → AllValid (skipped ++ message ∷ rest)
      → Unaccepted accepted skipped
      → length deferred + length skipped ≤ max_deferred_mailbox_messages
      → (receive_loop accepted deferred (skipped ++ message ∷ rest)).0 ≡ ok message
  unfolding receive_loop defer_message
  receive_loop_finds deferred [] rest v u h = ground (arith, hit, v.0)
  receive_loop_finds deferred (x ∷ xs) rest v u h = ground (
    arith,
    v.0,
    u.0,
    receive_loop_finds (deferred ++ x ∷ []) xs rest v.1 u.1,
    length-append deferred (x ∷ []),
  )

  -- Two splittings of a list at its first accepted message agree.
  first_unique :
      (found : MailboxMessage) (xs ys r s : List MailboxMessage)
      → contains accepted found.kind ≡ true
      → Unaccepted accepted xs
      → Unaccepted accepted ys
      → xs ++ found ∷ r ≡ ys ++ message ∷ s
      → found ≡ message
  first_unique found [] [] r s a u w e = cc
  first_unique found [] (y ∷ ys) r s a u w e =
      let same : found ≡ y = cc in
      absurd (ground (arith, w.0, ap (λ (m : MailboxMessage). contains accepted m.kind) same))
  first_unique found (x ∷ xs) [] r s a u w e =
      let same : x ≡ message = cc in
      absurd (ground (arith, u.0, ap (λ (m : MailboxMessage). contains accepted m.kind) same))
  first_unique found (x ∷ xs) (y ∷ ys) r s a u w e = first_unique found xs ys r s a u.1 w.1 (cc)

  -- The deferred messages are passed over: the accepted one is among those still to come.
  past_deferred :
      (deferred incoming skipped rest : List MailboxMessage)
      → Unaccepted accepted deferred
      → deferred ++ incoming ≡ skipped ++ message ∷ rest
      → (later : List MailboxMessage) × (incoming ≡ later ++ message ∷ rest)
        × (skipped ≡ deferred ++ later)
  past_deferred [] incoming skipped rest u e = (skipped, e, refl)
  past_deferred (x ∷ xs) incoming [] rest u e =
      let same : x ≡ message = cc in
      absurd (ground (arith, u.0, ap (λ (m : MailboxMessage). contains accepted m.kind) same))
  past_deferred (x ∷ xs) incoming (y ∷ ys) rest u e =
      let (later, i, s) = past_deferred xs incoming ys rest u.1 (cc) in
      let same : x ≡ y = cc in (later, i, rw (same, s))

All-later {ℓ κ} : {A : Type ℓ} (P : A → Type κ) (xs ys : List A) → All P (xs ++ ys) → All P ys
All-later P [] ys h = h
All-later P (x ∷ xs) ys h = All-later P xs ys h.1

-- If the oldest message of an accepted type stands behind at most 16 others, and every message
-- still to come is valid, then receiveType hands it out.
pub receive_type_finds :
    (accepted : List String) (message : MailboxMessage) (m : ProtocolMailbox)
    (skipped rest : List MailboxMessage)
    → contains accepted message.kind ≡ true
    → pending m ≡ skipped ++ message ∷ rest
    → Unaccepted accepted skipped
    → length skipped ≤ max_deferred_mailbox_messages
    → AllValid m.incoming
    → (receive_type m accepted).0 ≡ ok message
unfolding receive_type
receive_type_finds accepted message m skipped rest hit e u short v =
    elim (Option-cases (take_deferred accepted m.deferred)) [
      | inl miss ↦
          let (later, i, s) =
            past_deferred accepted message hit m.deferred m.incoming skipped rest
              (take_deferred-none accepted m.deferred miss) e in
          let u' : Unaccepted accepted later =
            All-later _ m.deferred later (subst (Unaccepted accepted) s u) in
          let l : length m.deferred + length later ≤ max_deferred_mailbox_messages =
            omega (arith, ap length s, length-append m.deferred later) in
          rw (miss, receive_type, i)
            (receive_loop_finds accepted message hit m.deferred later rest (subst AllValid i v) u'
              l)
      | inr (found, hit') ↦
          let t = take_deferred-TakesFirst accepted m.deferred found.0 found.1 hit' in
          let split : t.skipped ++ found.0 ∷ (t.rest ++ m.incoming) ≡ skipped ++ message ∷ rest =
            sym (append_assoc t.skipped (found.0 ∷ t.rest) m.incoming)
            ∙ ap (λ xs. xs ++ m.incoming) (sym t.was)
            ∙ e in
          rw (hit', receive_type)
            (ap (λ x. ok x)
              (first_unique accepted message hit found.0 t.skipped skipped _ rest t.of_kind
                t.none_earlier u split))
    ]
