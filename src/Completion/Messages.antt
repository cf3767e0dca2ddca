-- ===== src/Completion/Messages.antt =====
-- internal/transport/transfer_completion.go: which messages verify, and what their MACs cover.
use wormzy.Prelude.{
  ℕ, String, true, Nat_eq, Text_eq, List_eq, some, length, ◌≡◌, ◌↔◌, refl, sym, ap, arith, inl, inr,
  eq_iff, list_eq_iff, Option-cases, ◌⊎◌, ◌∙◌,
}
use wormzy.Encoding.{hex_encode, hex_decode}
use wormzy.Encoding.Hex.{hex_decode-hex_encode}
use wormzy.Completion.{
  CompletionError, Outcome, done, failed, TransferCompletionMessage, Primitives, Transfer, checked,
  mac_bytes, completion_mac, new_message, verify_message, valid_completion_role,
}

pub Outcome-cases {ℓ} :
    {A : Type ℓ} (m : Outcome A)
    → ((a : A) × (m ≡ done a)) ⊎ ((e : CompletionError) × (m ≡ failed e))
Outcome-cases (done a) = inl (a, refl)
Outcome-cases (failed e) = inr (e, refl)

checked_role :
    (t : Transfer) (role : String) (n : ℕ)
    → checked t role ≡ done n
    → valid_completion_role role ≡ true
unfolding checked
checked_role t role n h = ground arith

module _ ⦃P : Primitives⦄ where
  mac_bytes_size : (t : Transfer) (role : String) (n : ℕ) → length (mac_bytes t role n) ≡ 32
  unfolding mac_bytes
  mac_bytes_size t role n = P.hmac_size _ _

  hex-mac_bytes :
      (t : Transfer) (role : String) (n : ℕ)
      → hex_decode (hex_encode (mac_bytes t role n)) ≡ some (mac_bytes t role n)
  unfolding mac_bytes
  hex-mac_bytes t role n = hex_decode-hex_encode _ (P.hmac_bytes _ _)

  -- A message verifies for a transfer and a role exactly when it has that role, the transfer and
  -- role pass the checks of the MAC, and its MAC text is a hex form of the transfer's MAC for that
  -- role.
  pub verify_message_iff :
      (m : TransferCompletionMessage) (t : Transfer) (expected : String)
      → (verify_message m t expected ≡ done tt) ↔ (
          (n : ℕ) × (m.role ≡ expected)
          × (checked t expected ≡ done n)
          × (hex_decode m.mac ≡ some (mac_bytes t expected n)))
  unfolding verify_message completion_mac
  verify_message_iff m t expected = (
    λ h. elim (Outcome-cases (checked t m.role)) [
      | inl (n, c) ↦
          let same : m.role ≡ expected = ground (arith, c, eq_iff m.role expected) in
          elim (Option-cases (hex_decode m.mac)) [
            | inl e ↦ absurd (ground (arith, c, e, hex-mac_bytes t m.role n))
            | inr (got, e) ↦ (
              n,
              same,
              ap (λ r. checked t r) (sym same) ∙ c,
              e
                  ∙ ap some (
                      ground (
                        arith,
                        c,
                        e,
                        hex-mac_bytes t m.role n,
                        list_eq_iff got (mac_bytes t m.role n),
                      ))
                  ∙ ap (λ r. some (mac_bytes t r n)) same,
            )
          ]
      | inr (e, c) ↦ absurd (ground (arith, c))
    ],
    λ (n, r, c, e).
        let c2 : checked t m.role ≡ done n = ap (λ x. checked t x) r ∙ c in
        let e2 : hex_decode m.mac ≡ some (mac_bytes t m.role n) =
          e ∙ ap (λ x. some (mac_bytes t x n)) (sym r) in
        ground (
          arith,
          c2,
          e2,
          hex-mac_bytes t m.role n,
          eq_iff m.role expected,
          checked_role t m.role n c2,
          mac_bytes_size t m.role n,
          list_eq_iff (mac_bytes t m.role n) (mac_bytes t m.role n),
        ),
  )

  -- What one side makes, a side with the same transfer verifies.
  pub verify-new_message :
      (t : Transfer) (role : String) (m : TransferCompletionMessage)
      → new_message t role ≡ done m
      → verify_message m t role ≡ done tt
  unfolding new_message completion_mac
  verify-new_message t role m h = elim (Outcome-cases (checked t role)) [
    | inl (n, c) ↦
        let made : m ≡ record { role = role; mac = hex_encode (mac_bytes t role n) } =
          ground (arith, c) in
        (verify_message_iff m t role).1 (
          n,
          ap (λ (x : TransferCompletionMessage). x.role) made,
          c,
          ap (λ (x : TransferCompletionMessage). hex_decode x.mac) made ∙ hex-mac_bytes t role n,
        )
    | inr (e, c) ↦ absurd (ground (arith, c))
  ]
