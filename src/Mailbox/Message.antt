-- ===== src/Mailbox/Message.antt =====
-- internal/transport/mailbox_iface.go: the envelope, and `protocolMailbox`, which hands out the
-- messages of one protocol phase and keeps the others. The underlying mailbox is the list of
-- messages that it will deliver; at its end `Receive` fails.
use wormzy.Prelude.{
  ℕ, String, len, Bool, ◌&&◌, ◌||◌, ◌==◌, ◌!=◌, Nat_eq, Text_eq, Option, none, some, length, codes,
  every, contains, List, [], ◌∷◌, ◌++◌, if◌then◌else◌, ltb, leb,
}

abbrev pub max_deferred_mailbox_messages : ℕ
max_deferred_mailbox_messages = 16

abbrev pub max_deferred_mailbox_body_size : ℕ
max_deferred_mailbox_body_size = 65536

abbrev pub max_mailbox_message_type_length : ℕ
max_mailbox_message_type_length = 64

-- The body is raw JSON, a list of bytes. The field `Type` is `kind`.
pub record MailboxMessage : Type 0 where
  pub kind : String
  pub body : List ℕ

pub data MessageError : Type 0 where
  -- the mailbox below has failed
  receive_failed : MessageError
  invalid_type : MessageError
  body_too_large : MessageError
  deferred_limit : MessageError
  no_accepted_types : MessageError
  empty_accepted_type : MessageError

pub data Received {ℓ} (A : Type ℓ) : Type ℓ where
  ok : A → Received A
  err : MessageError → Received A

abbrev visible_ascii : ℕ → Bool
visible_ascii char = leb 0x21 char && leb char 0x7e

unfoldable pub validate_mailbox_message : MailboxMessage → Received (Unit {0})
validate_mailbox_message message =
    if len message.kind == 0 || ltb max_mailbox_message_type_length (len message.kind)
    then err invalid_type
    else if every visible_ascii (codes message.kind)
    then (if ltb max_deferred_mailbox_body_size (length message.body)
        then err body_too_large
        else ok tt)
    else err invalid_type

-- `deferred` is oldest first, `incoming` what the mailbox below will deliver.
pub record ProtocolMailbox : Type 0 where
  pub deferred : List MailboxMessage
  pub incoming : List MailboxMessage

abbrev checked {ℓ} : {A : Type ℓ} → Received (Unit {0}) → Received A → Received A
checked (ok _) r = r
checked (err e) r = err e

-- Receive
unfoldable pub receive : ProtocolMailbox → Received MailboxMessage × ProtocolMailbox
receive m = elim m.deferred [
  | message ∷ rest ↦
      (checked (validate_mailbox_message message) (ok message), record m { deferred = rest })
  | [] ↦ elim m.incoming [
    | [] ↦ (err receive_failed, m)
    | message ∷ rest ↦
        (checked (validate_mailbox_message message) (ok message), record m { incoming = rest })
  ]
]

-- deferMessage
unfoldable pub defer_message : List MailboxMessage → MailboxMessage → Received (List MailboxMessage)
defer_message deferred message = checked (validate_mailbox_message message) (
    if leb max_deferred_mailbox_messages (length deferred)
    then err deferred_limit
    else ok (deferred ++ message ∷ []))

-- The first deferred message of an accepted type, and the others.
unfoldable pub take_deferred :
    List String → List MailboxMessage → Option (MailboxMessage × List MailboxMessage)
take_deferred accepted [] = none
take_deferred accepted (message ∷ rest) =
    let later = take_deferred accepted rest in
    if contains accepted message.kind
    then some (message, rest)
    else elim later [ none ↦ none | some (found, others) ↦ some (found, message ∷ others) ]

abbrev Outcome : Type 0
Outcome = Received MailboxMessage × ProtocolMailbox

-- One message that the mailbox below delivers: handed out, refused, or deferred before the loop
-- goes on.
unfoldable pub after_receive :
    List String
    → List MailboxMessage
    → MailboxMessage
    → List MailboxMessage
    → Received (Unit {0})
    → (List MailboxMessage → Outcome)
    → Outcome
after_receive accepted deferred message rest (err e) next =
    (err e, record { deferred = deferred; incoming = rest })
after_receive accepted deferred message rest (ok _) next =
    if contains accepted message.kind
    then (ok message, record { deferred = deferred; incoming = rest })
    else elim (defer_message deferred message) [
      | err e ↦ (err e, record { deferred = deferred; incoming = rest })
      | ok kept ↦ next kept
    ]

-- The loop of receiveType over the mailbox below.
unfoldable pub receive_loop : List String → List MailboxMessage → List MailboxMessage → Outcome
unfolding after_receive
receive_loop accepted deferred [] =
    (err receive_failed, record { deferred = deferred; incoming = [] })
receive_loop accepted deferred (message ∷ rest) =
    after_receive accepted deferred message rest (validate_mailbox_message message)
      (λ kept. receive_loop accepted kept rest)

-- receiveType
unfoldable pub receive_type : ProtocolMailbox → List String → Outcome
unfolding receive_loop
receive_type m accepted = elim (take_deferred accepted m.deferred) [
  | some (message, others) ↦ (ok message, record m { deferred = others })
  | none ↦ receive_loop accepted m.deferred m.incoming
]

-- receiveMailboxType on a `protocolMailbox`
unfoldable pub receive_mailbox_type : ProtocolMailbox → List String → Outcome
unfolding receive_type
receive_mailbox_type m [] = (err no_accepted_types, m)
receive_mailbox_type m (t ∷ ts) =
    if every (λ name. name != "") (t ∷ ts)
    then receive_type m (t ∷ ts)
    else (err empty_accepted_type, m)
