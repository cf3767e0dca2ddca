-- ===== src/Completion.antt =====
-- internal/transport/transfer_completion.go: the authenticated receipt protocol. A text that is
-- only hashed or sent is the list of its bytes.
pub mod Messages
pub mod Frames
pub mod Conversation
pub mod Talk
pub mod Completes
use wormzy.Prelude.{
  ℕ, ◌+◌, ◌-◌, ◌*◌, ◌/◌, ◌%◌, ◌<◌, String, Bool, true, false, not, ◌&&◌, ◌||◌, ◌==◌, Nat_eq,
  Text_eq, List_eq, Option, none, some, List, [], ◌∷◌, ◌++◌, length, codes, All, ◌≡◌, if◌then◌else◌,
  ltb, zero, suc,
}
use wormzy.Prelude.Int.{ℤ, pos, negsuc}
use mathlib.Core.Option
use wormzy.Role.{send, recv}
use wormzy.Encoding.{hex_decode, hex_encode}

pub data CompletionError : Type 0 where
  empty_code : CompletionError
  invalid_completion_role : CompletionError
  invalid_file_key : CompletionError
  invalid_digest : CompletionError
  invalid_size : CompletionError
  unexpected_role : CompletionError
  authentication_failed : CompletionError
  invalid_message_size : CompletionError
  unexpected_end : CompletionError
  invalid_json : CompletionError
  invalid_mode : CompletionError
  invalid_write_count : CompletionError
  short_write : CompletionError
  write_failed : CompletionError

pub data Outcome {ℓ} (A : Type ℓ) : Type ℓ where
  done : A → Outcome A
  failed : CompletionError → Outcome A

abbrev pub and_then {ℓ κ} : {A : Type ℓ} {B : Type κ} → Outcome A → (A → Outcome B) → Outcome B
and_then (done a) f = f a
and_then (failed e) f = failed e

pub record TransferCompletionMessage : Type 0 where
  pub role : String
  pub mac : List ℕ

-- What the protocol uses of crypto/hmac, hkdf, strconv and encoding/json. `read_key secret label` is
-- the first 32 bytes of the HKDF; `decode` is the strict decoder with its test for trailing data.
pub record Primitives : Type 0 where
  pub read_key : List ℕ → List ℕ → List ℕ
  pub hmac : List ℕ → List ℕ → List ℕ
  pub hmac_size : (key message : List ℕ) → length (hmac key message) ≡ 32
  pub hmac_bytes : (key message : List ℕ) → All (λ b. b < 256) (hmac key message)
  pub format_int : ℕ → List ℕ
  pub marshal : TransferCompletionMessage → List ℕ
  pub decode : List ℕ → Option TransferCompletionMessage

abbrev pub receiver_verified : String
receiver_verified = "receiver-verified"

abbrev pub sender_confirmed : String
sender_confirmed = "sender-confirmed"

abbrev pub receiver_finished : String
receiver_finished = "receiver-finished"

abbrev pub sender_finished : String
sender_finished = "sender-finished"

abbrev pub max_message_size : ℕ
max_message_size = 2048

-- validTransferCompletionRole
unfoldable pub valid_completion_role : String → Bool
valid_completion_role role =
    role == receiver_verified
    || (role == sender_confirmed || (role == receiver_finished || role == sender_finished))

-- transferCompletionTimeout, in nanoseconds
unfoldable pub transfer_completion_timeout : ℤ → ℤ
transfer_completion_timeout (pos n) = if n == 0 || ltb 10000000000 n then pos 10000000000 else pos n
transfer_completion_timeout idle = pos 10000000000

-- What both sides of a transfer know.
pub record Transfer : Type 0 where
  pub code : List ℕ
  pub file_key : List ℕ
  pub digest : List ℕ
  pub size : ℤ

-- The checks that newTransferCompletionMessage and transferCompletionMAC make, in this order.
unfoldable pub checked : Transfer → String → Outcome ℕ
checked t role =
    if length t.code == 0
    then failed empty_code
    else if not (valid_completion_role role)
    then failed invalid_completion_role
    else if not (length t.file_key == 32)
    then failed invalid_file_key
    else if not (length t.digest == 32)
    then failed invalid_digest
    else elim t.size [ pos n ↦ done n | negsuc n ↦ failed invalid_size ]

-- io.ReadFull: `size` bytes, or none where the stream ends before.
unfoldable pub take_full : ℕ → List ℕ → Option (List ℕ × List ℕ)
take_full zero bytes = some ([], bytes)
take_full (suc size) [] = none
take_full (suc size) (b ∷ bytes) =
    Option.map (λ (p : List ℕ × List ℕ). (b ∷ p.0, p.1)) (take_full size bytes)

-- The calls of `send` and `receive` that a mode makes.
pub data Act : Type 0 where
  sends : String → Act
  receives : String → Act

abbrev pub sender_acts : List Act
sender_acts =
    receives receiver_verified
    ∷ sends sender_confirmed
    ∷ receives receiver_finished
    ∷ sends sender_finished
    ∷ []

abbrev pub receiver_acts : List Act
receiver_acts =
    sends receiver_verified
    ∷ receives sender_confirmed
    ∷ sends receiver_finished
    ∷ receives sender_finished
    ∷ []

module _ ⦃P : Primitives⦄ where
  -- One field: its length, a colon, the field.
  unfoldable pub field : List ℕ → List ℕ
  field bytes = P.format_int (length bytes) ++ b':' ∷ bytes

  -- What is written to the MAC, after checks that gave the size.
  unfoldable pub mac_input : Transfer → String → ℕ → List ℕ
  mac_input t role size =
      field (codes "wormzy-transfer-completion-message-v1")
      ++ field t.code
      ++ field (codes role)
      ++ field (P.format_int size)
      ++ field (hex_encode t.digest)

  -- The MAC's bytes.
  unfoldable pub mac_bytes : Transfer → String → ℕ → List ℕ
  mac_bytes t role size =
      P.hmac (P.read_key t.file_key (codes "wormzy-transfer-completion-key-v1"))
        (mac_input t role size)

  -- transferCompletionMAC
  unfoldable pub completion_mac : Transfer → String → Outcome (List ℕ)
  completion_mac t role =
      and_then (checked t role) (λ size. done (hex_encode (mac_bytes t role size)))

  -- newTransferCompletionMessage
  unfoldable pub new_message : Transfer → String → Outcome TransferCompletionMessage
  new_message t role =
      and_then (checked t role)
        (λ _. and_then (completion_mac t role) (λ mac. done (record { role = role; mac = mac })))

  abbrev pub same_mac : Option (List ℕ) → Option (List ℕ) → Bool
  same_mac (some want) (some got) = length got == 32 && got == want
  same_mac _ _ = false

  -- verifyTransferCompletionMessage
  unfoldable pub verify_message : TransferCompletionMessage → Transfer → String → Outcome (Unit {0})
  verify_message message t expected =
      if not (message.role == expected) || not (valid_completion_role message.role)
      then failed unexpected_role
      else and_then (completion_mac t message.role) (λ want.
        if same_mac (hex_decode want) (hex_decode message.mac)
        then done tt
        else failed authentication_failed)

  -- writeTransferCompletionMessage, up to the bytes that it hands to writeAll: the length as a
  -- big-endian uint16, then the JSON.
  unfoldable pub write_message : TransferCompletionMessage → Outcome (List ℕ)
  write_message message =
      let raw = P.marshal message in
      if length raw == 0 || ltb max_message_size (length raw)
      then failed invalid_message_size
      else done (length raw / 256 ∷ length raw % 256 ∷ raw)

  -- Reads, decodes and returns what is left of the stream.
  abbrev pub decode_body : Option (List ℕ × List ℕ) → Outcome (TransferCompletionMessage × List ℕ)
  decode_body none = failed unexpected_end
  decode_body (some (raw, left)) = elim (P.decode raw) [
    | none ↦ failed invalid_json
    | some message ↦ done (message, left)
  ]

  -- readTransferCompletionMessage, on the bytes that the peer has sent before it closes.
  unfoldable pub read_message : List ℕ → Outcome (TransferCompletionMessage × List ℕ)
  read_message (high ∷ low ∷ rest) =
      let size = high * 256 + low in
      if size == 0 || ltb max_message_size size
      then failed invalid_message_size
      else decode_body (take_full size rest)
  read_message _ = failed unexpected_end

  -- One side of the conversation, on all that its peer sends before it closes: the bytes that it
  -- sends, and how it ends.
  unfoldable pub run_acts : Transfer → List Act → List ℕ → List ℕ × Outcome (Unit {0})
  run_acts t [] input = ([], done tt)
  run_acts t (sends role ∷ acts) input =
      let rest = run_acts t acts input in
      elim (and_then (new_message t role) write_message) [
        | failed e ↦ ([], failed e)
        | done frame ↦ (frame ++ rest.0, rest.1)
      ]
  run_acts t (receives role ∷ acts) input = elim (read_message input) [
    | failed e ↦ ([], failed e)
    | done (message, left) ↦
        let rest = run_acts t acts left in
        elim (verify_message message t role) [ failed e ↦ ([], failed e) | done _ ↦ rest ]
  ]

  -- runTransferCompletionProtocol: `mode` is the side's role in the transfer.
  unfoldable pub run_protocol : Transfer → String → List ℕ → List ℕ × Outcome (Unit {0})
  run_protocol t mode input =
      if mode == send
      then run_acts t sender_acts input
      else if mode == recv
      then run_acts t receiver_acts input
      else ([], failed invalid_mode)
