-- ===== src/Transfer/Confirm.antt =====
-- internal/transport/transport.go, confirmPeerPSK: both sides prove that they hold the key of the
-- PAKE before a path may win. A side is the sequence of its writes and reads; a write that fails is
-- not modelled.
use wormzy.Prelude.{
  ℕ, ◌+◌, Bool, not, ◌==◌, Nat_eq, List_eq, Option, none, some, List, [], ◌++◌, length, take, drop,
  codes, ◌≡◌, ap, ◌∙◌, sym, arith, if◌then◌else◌, Option-cases, inl, inr,
}
use wormzy.Prelude.Fallible.{Fallible, ok, fail}
use wormzy.Prelude.Duplex.{Duplex}
use wormzy.Completion.{take_full}
use wormzy.Completion.Frames.{take_full-more}
use wormzy.Transfer.Frames.{be32}

pub data ConfirmError : Type 0 where
  invalid_key unexpected_end no_random peer_key_confirmation_failed : ConfirmError

-- HMAC-SHA-256.
pub record Mac : Type 0 where
  pub hmac : List ℕ → List ℕ → List ℕ
  pub hmac_size : (key message : List ℕ) → length (hmac key message) ≡ 32

abbrev pub peer_confirmation_nonce_size : ℕ
peer_confirmation_nonce_size = 32

abbrev pub peer_confirmation_preface : List ℕ
peer_confirmation_preface = codes "wormzy-peer-confirm-v2"

abbrev length_delimited : List ℕ → List ℕ
length_delimited bytes = be32 (length bytes) ++ bytes

-- What a side still has to do: a read gives the bytes that it asked for, or none if the stream ends
-- before.
pub data Script : Type 0 where
  ended : Fallible ConfirmError (Unit {0}) → Script
  writes : List ℕ → Script → Script
  reads : ℕ → (Option (List ℕ) → Script) → Script

-- A side's next operation, while its stream is open.
abbrev pub read_by :
    (Option (List ℕ) → Script) → Option (List ℕ × List ℕ) → Option (Script × (List ℕ × List ℕ))
read_by go none = none
read_by go (some (got, left)) = some (go (some got), (left, []))

abbrev pub advance_script : Script → List ℕ → Option (Script × (List ℕ × List ℕ))
advance_script (ended result) inbox = none
advance_script (writes bytes script) inbox = some (script, (inbox, bytes))
advance_script (reads size go) inbox = read_by go (take_full size inbox)

pub advance_script-more :
    (s t : Script) (inbox rest out more : List ℕ)
    → advance_script s inbox ≡ some (t, (rest, out))
    → advance_script s (inbox ++ more) ≡ some (t, (rest ++ more, out))
advance_script-more (ended result) t inbox rest out more h = absurd (ground (arith, h))
advance_script-more (writes bytes script) t inbox rest out more h = ground (arith, h)
advance_script-more (reads size go) t inbox rest out more h =
    elim (Option-cases (take_full size inbox)) [
      | inl short ↦ absurd (ground (arith, short, h))
      | inr ((got, left), full) ↦
          let said : some (go (some got), (left, [])) ≡ some (t, (rest, out)) =
            ap (read_by go) (sym full) ∙ h in
          rw (take_full-more size inbox got left more full) (
            ap
              (λ (o : Option (Script × (List ℕ × List ℕ))). elim o [
                | none ↦ none
                | some (s, (l, w)) ↦ some (s, (l ++ more, w))
              ])
              said)
    ]

abbrev pub script_duplex : Duplex Script
script_duplex = record { advance = advance_script; advance-more = advance_script-more }

module _ ⦃H : Mac⦄ where
  unfoldable pub peer_confirmation_mac : List ℕ → List ℕ → List ℕ → List ℕ → List ℕ
  peer_confirmation_mac psk role challenge nonce = H.hmac psk (
      length_delimited (codes "wormzy-quic-peer-confirmation-v2")
      ++ (length_delimited role ++ (length_delimited challenge ++ length_delimited nonce)))

  abbrev pub initiator_proof : List ℕ → List ℕ → List ℕ → List ℕ
  initiator_proof psk = peer_confirmation_mac psk (codes "initiator")

  abbrev pub responder_proof : List ℕ → List ℕ → List ℕ → List ℕ
  responder_proof psk = peer_confirmation_mac psk (codes "responder")

  -- The initiator's last test.
  abbrev pub check_response : List ℕ → Option (List ℕ) → Script
  check_response want none = ended (fail unexpected_end)
  check_response want (some response) =
      ended (if response == want then ok tt else fail peer_key_confirmation_failed)

  abbrev pub prove : List ℕ → List ℕ → Option (List ℕ) → Script
  prove psk challenge none = ended (fail no_random)
  prove psk challenge (some nonce) =
      writes (nonce ++ initiator_proof psk challenge nonce)
        (reads 32 (check_response (responder_proof psk challenge nonce)))

  abbrev pub answer : List ℕ → Option (List ℕ) → Option (List ℕ) → Script
  answer psk random none = ended (fail unexpected_end)
  answer psk random (some challenge) = prove psk challenge random

  -- The branch of the initiator, after the test of the key.
  unfoldable pub initiate : List ℕ → Option (List ℕ) → Script
  initiate psk random =
      writes peer_confirmation_preface (reads peer_confirmation_nonce_size (answer psk random))

  -- The proof is checked before the response is written.
  abbrev pub check_proof : List ℕ → List ℕ → Option (List ℕ) → Script
  check_proof psk challenge none = ended (fail unexpected_end)
  check_proof psk challenge (some proof_frame) =
      let nonce = take peer_confirmation_nonce_size proof_frame in
      if drop peer_confirmation_nonce_size proof_frame == initiator_proof psk challenge nonce
      then writes (responder_proof psk challenge nonce) (ended (ok tt))
      else ended (fail peer_key_confirmation_failed)

  abbrev pub ask : List ℕ → Option (List ℕ) → Script
  ask psk none = ended (fail no_random)
  ask psk (some challenge) =
      writes challenge (reads (peer_confirmation_nonce_size + 32) (check_proof psk challenge))

  abbrev pub check_preface : List ℕ → Option (List ℕ) → Option (List ℕ) → Script
  check_preface psk random none = ended (fail unexpected_end)
  check_preface psk random (some preface) =
      if preface == peer_confirmation_preface
      then ask psk random
      else ended (fail peer_key_confirmation_failed)

  -- The branch of the responder.
  unfoldable pub respond : List ℕ → Option (List ℕ) → Script
  respond psk random = reads (length peer_confirmation_preface) (check_preface psk random)

  unfoldable pub confirm_peer_psk : Bool → List ℕ → Option (List ℕ) → Script
  confirm_peer_psk initiator psk random =
      if not (length psk == 32)
      then ended (fail invalid_key)
      else if initiator
      then initiate psk random
      else respond psk random
