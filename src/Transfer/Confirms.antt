-- ===== src/Transfer/Confirms.antt =====
-- internal/transport/transport.go, confirmPeerPSK: two sides that hold one key both confirm it,
-- however they interleave.
use wormzy.Prelude.{
  ℕ, ◌+◌, true, false, Nat_eq, List_eq, list_eq_iff, Option, some, List, [], ◌∷◌, ◌++◌, length,
  length-append, take, take-append, drop, codes, ◌≡◌, refl, ap, ◌∙◌, sym, arith,
}
use mathlib.Core.List.{append-nil}
use wormzy.Prelude.Fallible.{ok}
use wormzy.Prelude.Duplex.{Pair, Runs, Runs-end, by_left, by_right}
use wormzy.Completion.{take_full}
use wormzy.Completion.Frames.{take_full-append}
use wormzy.Transfer.Confirm.{
  Mac, Script, ended, writes, reads, advance_script, script_duplex, peer_confirmation_mac,
  peer_confirmation_preface, initiator_proof, responder_proof, check_response, answer, check_proof,
  check_preface, initiate, respond, confirm_peer_psk,
}

-- Two sides that have confirmed the key.
abbrev pub confirmed : Pair Script
confirmed = record { left = ended (ok tt); right = ended (ok tt); to_left = []; to_right = [] }

module _ ⦃H : Mac⦄ where
  proof_size :
      (psk role challenge nonce : List ℕ)
      → length (peer_confirmation_mac psk role challenge nonce) ≡ 32
  unfolding peer_confirmation_mac
  proof_size psk role challenge nonce = H.hmac_size psk _

  take_full-at :
      (size : ℕ) (xs ys : List ℕ) → length xs ≡ size → take_full size (xs ++ ys) ≡ some (xs, ys)
  take_full-at size xs ys e = ap (λ n. take_full n (xs ++ ys)) (sym e) ∙ take_full-append xs ys

  take_full-all : (size : ℕ) (xs : List ℕ) → length xs ≡ size → take_full size xs ≡ some (xs, [])
  take_full-all size xs e =
      ap (λ ys. take_full size ys) (sym (append-nil xs)) ∙ take_full-at size xs [] e

  drop-append : (xs ys : List ℕ) → drop (length xs) (xs ++ ys) ≡ ys
  unfolding drop
  drop-append [] ys = refl
  drop-append (x ∷ xs) ys = drop-append xs ys

  -- A read that takes all that waits.
  read_next :
      (size : ℕ) (go : Option (List ℕ) → Script) (bytes : List ℕ) (s : Script)
      → length bytes ≡ size
      → go (some bytes) ≡ s
      → advance_script (reads size go) bytes ≡ some (s, ([], []))
  read_next size go bytes s e is = rw (take_full-all size bytes e, is) refl

  -- Two sides at the start of their talk.
  abbrev pub starts : List ℕ → List ℕ → List ℕ → Pair Script
  starts psk nonce challenge = record {
    left = confirm_peer_psk true psk (some nonce);
    right = confirm_peer_psk false psk (some challenge);
    to_left = [];
    to_right = [];
  }

  -- The talk, each read after the write that it waits for.
  talk :
      (psk nonce challenge : List ℕ)
      → length psk ≡ 32
      → length nonce ≡ 32
      → length challenge ≡ 32
      → Runs script_duplex 8 (starts psk nonce challenge) confirmed
  unfolding confirm_peer_psk initiate respond
  talk psk nonce challenge k n c =
      let proof = initiator_proof psk challenge nonce in
      let response = responder_proof psk challenge nonce in
      let p32 = proof_size psk (codes "initiator") challenge nonce in
      let r32 = proof_size psk (codes "responder") challenge nonce in
      let first = nonce ++ proof in
      let whole : length first ≡ 64 = omega (arith, n, p32, length-append nonce proof) in
      let nonce_taken : take 32 first ≡ nonce =
        ap (λ k. take k first) (sym n) ∙ take-append nonce proof in
      let proof_left : drop 32 first ≡ proof =
        ap (λ k. drop k first) (sym n) ∙ drop-append nonce proof in
      let d = script_duplex in
      let end = confirmed in
      let waits = reads 32 (answer psk (some nonce)) in
      let hears = check_preface psk (some challenge) in
      let asks = reads 64 (check_proof psk challenge) in
      let checks = reads 32 (check_response response) in
      let proved : check_proof psk challenge (some first) ≡ writes response (ended (ok tt)) =
        rw (nonce_taken, proof_left, (list_eq_iff proof proof).1 refl) refl in
      let agreed : check_response response (some response) ≡ ended (ok tt) =
        rw ((list_eq_iff response response).1 refl) refl in
      let same = (list_eq_iff peer_confirmation_preface peer_confirmation_preface).1 refl in
      let greeted : hears (some peer_confirmation_preface) ≡ writes challenge asks = rw same refl in
      rw k (
        by_left d 7 _ _ waits [] [] [] peer_confirmation_preface end refl (
          by_right d 6 waits _ (writes challenge asks) [] _ [] [] end
            (read_next 22 hears peer_confirmation_preface _ refl greeted)
            (by_right d 5 waits _ asks [] [] [] challenge end refl (
              by_left d 4 waits asks (writes first checks) challenge [] [] [] end
                (read_next 32 (answer psk (some nonce)) challenge _ c refl)
                (by_left d 3 _ asks checks [] [] [] first end refl (
                  by_right d 2 checks asks (writes response (ended (ok tt))) [] first [] [] end
                    (read_next 64 (check_proof psk challenge) first _ whole proved)
                    (by_right d 1 checks _ (ended (ok tt)) [] [] [] response end refl (
                      by_left d 0 checks (ended (ok tt)) (ended (ok tt)) response [] [] [] end
                        (read_next 32 (check_response response) response _ r32 agreed) refl))))))))

  -- Two sides that hold one key of 32 bytes, and draw nonces of 32 bytes, both confirm it: after
  -- any writes and reads of the two, in any order in which a read waits for its bytes, they can go
  -- on, and after 8 writes and reads in all both have ended with success.
  pub confirm_peer_psk_both :
      (psk nonce challenge : List ℕ) (j : ℕ) (q : Pair Script)
      → length psk ≡ 32
      → length nonce ≡ 32
      → length challenge ≡ 32
      → Runs script_duplex j (starts psk nonce challenge) q
      → (i : ℕ) × ((j + i ≡ 8) × Runs script_duplex i q confirmed)
  confirm_peer_psk_both psk nonce challenge j q k n c run =
      Runs-end script_duplex 8 j (starts psk nonce challenge) q confirmed (refl, refl)
        (talk psk nonce challenge k n c) run
