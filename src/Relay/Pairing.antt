-- ===== src/Relay/Pairing.antt =====
-- `register`: who is paired with whom.
use wormzy.Prelude.{
  ℕ, String, ◌≡◌, ◌≢◌, true, Text_eq, List_eq, eq_iff, list_eq_iff, Option, none, some, List,
  length, codes, arith, inl, inr, Option-cases, ◌↔◌, Nat_eq, refl,
}
use wormzy.Prelude.Dict.{Distinct, lookup, lookup-insert, lookup-erase}
use wormzy.Encoding.{hex_decode}
use wormzy.Relay.{
  RelayServer, RelayServerClient, RelayPair, paired_with, retained, relay_tokens_equal,
  relay_identifier_length, retain, join, register, same_token,
}

-- The two texts are hex forms of one 32-byte proof.
pub record SameProof (left right : String) : Type 0 where
  pub raw : List ℕ
  pub of_left : hex_decode (codes left) ≡ some raw
  pub of_right : hex_decode (codes right) ≡ some raw
  pub size : length raw ≡ relay_identifier_length

same_token-SameProof :
    (left right : String) (l r : Option (List ℕ))
    → hex_decode (codes left) ≡ l
    → hex_decode (codes right) ≡ r
    → same_token l r ≡ true
    → SameProof left right
same_token-SameProof left right (some l) (some r) p q h = record {
  raw = l;
  of_left = p;
  of_right = ground (arith, list_eq_iff l r);
  size = ground arith;
}
same_token-SameProof left right none r p q h = cc
same_token-SameProof left right (some l) none p q h = cc

-- The relay's test on proofs passes exactly for two hex forms of one 32-byte proof.
pub relay_tokens_equal_iff :
    (left right : String) → (relay_tokens_equal left right ≡ true) ↔ SameProof left right
unfolding relay_tokens_equal
relay_tokens_equal_iff left right = (
  λ h. same_token-SameProof left right _ _ refl refl h,
  λ p. rw (p.of_left, p.of_right) (ground (arith, list_eq_iff p.raw p.raw, p.size)),
)

module _ (s : RelayServer) (client : RelayServerClient) (d : Distinct s.waiting) where
  abbrev session : String
  session = client.hello.session

  join-eq-paired :
      (other : RelayServerClient) (p : RelayPair) (t : RelayServer)
      → join s other client ≡ (paired_with p, t)
      → (p.a ≡ other)
        × (p.b ≡ client)
        × (other.hello.role ≢ client.hello.role)
        × (relay_tokens_equal other.hello.token client.hello.token ≡ true)
        × (lookup session t.waiting ≡ none)
        × ((k : String) → session ≢ k → lookup k t.waiting ≡ lookup k s.waiting)
  unfolding join
  join-eq-paired other p t h = (
    ground arith,
    ground arith,
    ground (arith, eq_iff other.hello.role client.hello.role),
    ground arith,
    ground (arith, d, lookup-erase session session s.waiting, eq_iff session session),
    λ k ne. ground (arith, d, lookup-erase session k s.waiting, eq_iff session k),
  )

  -- If a registration at a table in which a session stands once forms a pair, then the pair is the
  -- peer that waited for the session and the new one, their roles differ, their tokens are hex
  -- forms of one 32-byte proof, the session's slot is free again, and every other slot is as it
  -- was.
  pub register-eq-paired :
      (p : RelayPair) (t : RelayServer)
      → register s client ≡ (paired_with p, t)
      → (lookup session s.waiting ≡ some p.a)
        × (p.b ≡ client)
        × (p.a.hello.role ≢ client.hello.role)
        × SameProof p.a.hello.token client.hello.token
        × (lookup session t.waiting ≡ none)
        × ((k : String) → session ≢ k → lookup k t.waiting ≡ lookup k s.waiting)
  register-eq-paired p t h = elim (Option-cases (lookup session s.waiting)) [
    | inl e ↦ absurd (unfold register retain in ground (arith, e))
    | inr (other, e) ↦
        let j : join s other client ≡ (paired_with p, t) = unfold register in ground (arith, e) in
        let (a_is, b_is, roles, tokens, gone, rest) = join-eq-paired other p t j in
        (
          ground (arith, a_is),
          b_is,
          rw a_is roles,
          rw a_is ((relay_tokens_equal_iff _ _).0 tokens),
          gone,
          rest,
        )
  ]

-- Once a peer is retained, another of the same session is paired with it exactly when their roles
-- differ and their tokens are hex forms of one 32-byte proof.
pub register-register :
    (s : RelayServer) (p q : RelayServerClient)
    → (register s p).0 ≡ retained
    → p.hello.session ≡ q.hello.session
    → ((register (register s p).1 q).0 ≡ paired_with (record { a = p; b = q }))
      ↔ ((p.hello.role ≢ q.hello.role) × SameProof p.hello.token q.hello.token)
register-register s p q kept same = (forth, back)
  where
    slot : lookup q.hello.session (register s p).1.waiting ≡ some p
    slot =
        unfold register retain join in
        ground (
          arith,
          lookup-insert p.hello.session q.hello.session p s.waiting,
          eq_iff p.hello.session q.hello.session,
        )

    step : register (register s p).1 q ≡ join (register s p).1 p q
    step = unfold register in ground (arith, slot)

    forth :
        (register (register s p).1 q).0 ≡ paired_with (record { a = p; b = q })
        → (p.hello.role ≢ q.hello.role) × SameProof p.hello.token q.hello.token
    forth h =
        let h' : (join (register s p).1 p q).0 ≡ paired_with (record { a = p; b = q }) = cc step in
        (
          unfold join in ground (arith, eq_iff p.hello.role q.hello.role),
          (relay_tokens_equal_iff _ _).0 (unfold join in ground arith),
        )

    back :
        (p.hello.role ≢ q.hello.role) × SameProof p.hello.token q.hello.token
        → (register (register s p).1 q).0 ≡ paired_with (record { a = p; b = q })
    back h = rw step (
        unfold join in
        ground (
          arith,
          eq_iff p.hello.role q.hello.role,
          (relay_tokens_equal_iff p.hello.token q.hello.token).1 h.1,
        ))
