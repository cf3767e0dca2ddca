-- ===== src/Examples/Transfers.antt =====
-- The receipt protocol at a concrete transfer, with primitives that are easy to compute.
use wormzy.Prelude.{
  ◌+◌, ℕ, zero, suc, Nat_eq, ap, ◌<◌, String, true, ◌==◌, Text_eq, eq_iff, none, some, List, [],
  ◌∷◌, ◌++◌, All, list_eq, if◌then◌else◌, ◌≡◌, ◌↔◌, refl, arith, Option,
}
use wormzy.Prelude.Int.{pos}
use wormzy.Encoding.{hex_encode, hex_decode, hex_digit}
use wormzy.Completion.{
  Primitives, Transfer, TransferCompletionMessage, done, checked, new_message, completion_mac,
  mac_bytes, verify_message, valid_completion_role, write_message, read_message, run_protocol,
  run_acts, take_full, receiver_verified, sender_confirmed, receiver_finished, sender_finished,
}
use wormzy.Completion.Messages.{verify_message_iff}
use wormzy.Completion.Frames.{read_message-write_message}
use wormzy.Completion.Conversation.{Hears, run_protocol_sender, run_protocol_receiver}
use wormzy.Prelude.Duplex.{Runs}
use wormzy.Completion.Talk.{protocol_duplex}
use wormzy.Completion.Completes.{Carries, starts, completed, starts-completed}

abbrev zeros_of : ℕ → List ℕ
zeros_of zero = []
zeros_of (suc n) = 0 ∷ zeros_of n

zeros_small : (n : ℕ) → All (λ b. b < 256) (zeros_of n)
zeros_small zero = tt
zeros_small (suc n) = (omega arith, zeros_small n)

abbrev zeros : List ℕ
zeros = zeros_of 32

abbrev index : String → ℕ
index role =
    if role == receiver_verified
    then 0
    else if role == sender_confirmed
    then 1
    else if role == receiver_finished
    then 2
    else 3

abbrev named : ℕ → String
named i =
    if i == 0
    then receiver_verified
    else if i == 1
    then sender_confirmed
    else if i == 2
    then receiver_finished
    else sender_finished

named-index : (role : String) → valid_completion_role role ≡ true → named (index role) ≡ role
unfolding valid_completion_role
named-index role v = ground (
  arith,
  eq_iff role receiver_verified,
  eq_iff role sender_confirmed,
  eq_iff role receiver_finished,
  eq_iff role sender_finished,
)

abbrev parsed : List ℕ → Option TransferCompletionMessage
parsed [] = none
parsed (i ∷ mac) = some (record { role = named i; mac = mac })

unfoldable zero_hmac : List ℕ → List ℕ → List ℕ
zero_hmac key message = zeros

zero_hmac_bytes : (key message : List ℕ) → All (λ b. b < 256) (zero_hmac key message)
unfolding zero_hmac
zero_hmac_bytes key message = zeros_small 32

abbrev primitives : Primitives
primitives = record {
  read_key = λ secret label. secret;
  hmac = zero_hmac;
  hmac_size = λ key message. unfold zero_hmac in refl;
  hmac_bytes = zero_hmac_bytes;
  format_int = λ n. n ∷ [];
  marshal = λ m. index m.role ∷ m.mac;
  decode = parsed;
}

abbrev transfer : Transfer
transfer = record { code = b'7' ∷ []; file_key = zeros; digest = zeros; size = pos 5 }

new_message_lem :
    (role : String) (m : TransferCompletionMessage)
    → new_message ⦃P = primitives⦄ transfer role ≡ done m
    → (valid_completion_role role ≡ true) × (m ≡ record { role = role; mac = hex_encode zeros })
unfolding new_message checked completion_mac mac_bytes zero_hmac
new_message_lem role m h = (ground arith, ground arith)

transfer-Carries : Carries ⦃P = primitives⦄ transfer
unfolding checked valid_completion_role hex_encode
transfer-Carries = record {
  size = 5;
  well_formed = λ role v. ground (arith, v);
  carried = λ role m h.
      let (v, e) = new_message_lem role m h in
      (
        ap (λ r. some (record { role = r; mac = m.mac })) (named-index m.role (rw e v)),
        omega arith,
        rw e (omega arith),
      );
}

starts-completed_example :
    (i : ℕ) × ((0 + i ≡ 10)
      × Runs
          (protocol_duplex ⦃P = primitives⦄ transfer)
          i
          (starts ⦃P = primitives⦄ transfer)
          completed)
starts-completed_example =
    starts-completed ⦃P = primitives⦄ transfer 0 (starts ⦃P = primitives⦄ transfer) transfer-Carries
      refl

abbrev first_message : TransferCompletionMessage
first_message = record { role = receiver_verified; mac = hex_encode zeros }

verify_message_iff_example :
    (verify_message ⦃P = primitives⦄ first_message transfer receiver_verified ≡ done tt) ↔ (
      (n : ℕ) × (receiver_verified ≡ receiver_verified)
      × (checked transfer receiver_verified ≡ done n)
      × (hex_decode (hex_encode zeros)
          ≡ some (mac_bytes ⦃P = primitives⦄ transfer receiver_verified n)))
verify_message_iff_example =
    verify_message_iff ⦃P = primitives⦄ first_message transfer receiver_verified

abbrev frame : String → List ℕ
frame role = 0 ∷ 65 ∷ index role ∷ hex_encode zeros

run_protocol_sender_example :
    (rest : List ℕ) × (left : List ℕ) × Hears ⦃P = primitives⦄ transfer receiver_verified
      (frame receiver_verified ++ frame receiver_finished)
      rest
    × Hears ⦃P = primitives⦄ transfer receiver_finished rest left
unfolding run_protocol run_acts read_message take_full verify_message new_message completion_mac
    mac_bytes checked valid_completion_role hex_encode hex_decode hex_digit list_eq zero_hmac
    write_message
run_protocol_sender_example =
    run_protocol_sender ⦃P = primitives⦄ transfer
      (frame receiver_verified ++ frame receiver_finished)
      (frame sender_confirmed ++ frame sender_finished) refl

run_protocol_receiver_example :
    (rest : List ℕ) × (left : List ℕ) × Hears ⦃P = primitives⦄ transfer sender_confirmed
      (frame sender_confirmed ++ frame sender_finished)
      rest
    × Hears ⦃P = primitives⦄ transfer sender_finished rest left
unfolding run_protocol run_acts read_message take_full verify_message new_message completion_mac
    mac_bytes checked valid_completion_role hex_encode hex_decode hex_digit list_eq zero_hmac
    write_message
run_protocol_receiver_example =
    run_protocol_receiver ⦃P = primitives⦄ transfer
      (frame sender_confirmed ++ frame sender_finished)
      (frame receiver_verified ++ frame receiver_finished) refl

read_message-write_message_example :
    read_message ⦃P = primitives⦄ (frame receiver_verified ++ frame receiver_finished)
    ≡ done (first_message, frame receiver_finished)
unfolding write_message hex_encode
read_message-write_message_example =
    read_message-write_message ⦃P = primitives⦄ first_message (frame receiver_verified)
      (frame receiver_finished) refl refl
