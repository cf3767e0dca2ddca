-- ===== src/Signaling/Snapshot.antt =====
-- internal/transport/authenticated_signaling.go: what a snapshot's message proves.
use wormzy.Prelude.{
  ℕ, String, Text_eq, Nat_eq, List_eq, list_eq_iff, eq_iff, some, List, ◌≡◌, ◌↔◌, refl, ap, ◌∙◌,
  subst, arith, inl, inr, Option-cases,
}
use wormzy.Prelude.Fallible.{ok, Fallible-cases}
use wormzy.Session.{SelfInfo}
use wormzy.Encoding.{hex_encode, hex_decode}
use wormzy.Encoding.Hex.{hex_decode-hex_encode}
use wormzy.Candidates.{Texts, validate_peer_candidate_metadata}
use wormzy.Signaling.{
  Primitives, SelfSnapshotAuthMessage, canonical, self_snapshot_digest, raw_digest, raw_mac,
  self_snapshot_mac, new_self_snapshot_auth_message, verify_self_snapshot_auth_message, mac_input,
}
use wormzy.Signaling.Metadata.{SameMetadata, self_snapshot_digest-SameMetadata}

module _ ⦃T : Texts⦄ ⦃P : Primitives⦄ where
  digest_lem :
      (info : SelfInfo) (digest : List ℕ)
      → self_snapshot_digest info ≡ ok digest
      → digest ≡ hex_encode (raw_digest info)
  unfolding self_snapshot_digest
  digest_lem info digest h = elim (Fallible-cases (validate_peer_candidate_metadata info)) [
    | inr (e, bad) ↦ absurd (ground (arith, h, bad))
    | inl (_, good) ↦ ground (arith, h, good)
  ]

  hex-digest :
      (info : SelfInfo) → hex_decode (hex_encode (raw_digest info)) ≡ some (raw_digest info)
  hex-digest info = hex_decode-hex_encode (raw_digest info) (P.sha256_bytes _)

  hex-mac :
      (code digest psk : List ℕ) (role : String)
      → hex_decode (hex_encode (raw_mac code role digest psk)) ≡ some (raw_mac code role digest psk)
  hex-mac code digest psk role =
      hex_decode-hex_encode (raw_mac code role digest psk) (P.hmac_bytes _ _)

  -- The four conditions under which a message is accepted.
  pub record Proves (m : SelfSnapshotAuthMessage) (code : List ℕ) (expected : String) (psk : List ℕ)
      (info : SelfInfo) : Type 0 where
    pub role : m.role ≡ expected
    pub well_formed : self_snapshot_digest info ≡ ok (hex_encode (raw_digest info))
    pub digest : hex_decode m.digest ≡ some (raw_digest info)
    pub mac : hex_decode m.mac ≡ some (raw_mac code m.role m.digest psk)

  verify-Proves :
      (m : SelfSnapshotAuthMessage) (code : List ℕ) (expected : String) (psk : List ℕ)
      (info : SelfInfo)
      → verify_self_snapshot_auth_message m code expected psk info ≡ ok tt
      → Proves m code expected psk info
  unfolding verify_self_snapshot_auth_message self_snapshot_mac
  verify-Proves m code expected psk info h = elim (Fallible-cases (self_snapshot_digest info)) [
    | inr (e, bad) ↦ absurd (ground (arith, h, bad))
    | inl (want, good) ↦
        let is = digest_lem info want good in
        let raw = hex-digest info in
        let mac = hex-mac code m.digest psk m.role in
        elim (Option-cases (hex_decode m.digest)) [
          | inl bad ↦ absurd (ground (arith, h, good, bad))
          | inr (got, held) ↦ elim (Option-cases (hex_decode m.mac)) [
            | inl bad ↦ absurd (ground (arith, h, good, held, bad))
            | inr (got_mac, held_mac) ↦
                let same_digest : got ≡ raw_digest info =
                  ground (arith, h, good, held, is, raw, list_eq_iff got (raw_digest info)) in
                let same_mac : got_mac ≡ raw_mac code m.role m.digest psk = ground (
                  arith,
                  h,
                  good,
                  held,
                  held_mac,
                  mac,
                  list_eq_iff got_mac (raw_mac code m.role m.digest psk),
                ) in
                record {
                  role = ground (arith, h, eq_iff m.role expected);
                  well_formed = good ∙ ap ok is;
                  digest = held ∙ ap some same_digest;
                  mac = held_mac ∙ ap some same_mac;
                }
          ]
        ]
  ]

  Proves-verify :
      (m : SelfSnapshotAuthMessage) (code : List ℕ) (expected : String) (psk : List ℕ)
      (info : SelfInfo)
      → Proves m code expected psk info
      → verify_self_snapshot_auth_message m code expected psk info ≡ ok tt
  unfolding verify_self_snapshot_auth_message self_snapshot_mac
  Proves-verify m code expected psk info p = ground (
    arith,
    p.role,
    p.well_formed,
    p.digest,
    p.mac,
    eq_iff m.role expected,
    hex-digest info,
    hex-mac code m.digest psk m.role,
    P.sha256_size (P.marshal (canonical info)),
    P.hmac_size psk (mac_input code m.role m.digest),
    list_eq_iff (raw_digest info) (raw_digest info),
    list_eq_iff (raw_mac code m.role m.digest psk) (raw_mac code m.role m.digest psk),
  )

  -- A snapshot message is accepted exactly when it has the expected role, the metadata that was
  -- received has a digest, the message's digest is a hex form of it, and its MAC is a hex form of
  -- the MAC of the code, the role and that digest under the shared key.
  pub verify_self_snapshot_auth_message_iff :
      (m : SelfSnapshotAuthMessage) (code : List ℕ) (expected : String) (psk : List ℕ)
      (info : SelfInfo)
      → (verify_self_snapshot_auth_message m code expected psk info ≡ ok tt)
        ↔ Proves m code expected psk info
  verify_self_snapshot_auth_message_iff m code expected psk info =
      (verify-Proves m code expected psk info, Proves-verify m code expected psk info)

  -- The message that one side makes for its metadata, the other side accepts for the same code,
  -- role, key and metadata, in whatever order it lists the candidates and the features.
  pub verify-new_self_snapshot_auth_message :
      (code : List ℕ) (role : String) (psk : List ℕ) (i j : SelfInfo) (m : SelfSnapshotAuthMessage)
      → SameMetadata i j
      → new_self_snapshot_auth_message code role psk i ≡ ok m
      → verify_self_snapshot_auth_message m code role psk j ≡ ok tt
  unfolding new_self_snapshot_auth_message self_snapshot_mac
  verify-new_self_snapshot_auth_message code role psk i j m s h =
      elim (Fallible-cases (self_snapshot_digest i)) [
        | inr (e, bad) ↦ absurd (ground (arith, h, bad))
        | inl (digest, good) ↦
            let mac = hex_encode (raw_mac code role digest psk) in
            let made : record { role = role; digest = digest; mac = mac } ≡ m =
              ground (arith, h, good) in
            let there = self_snapshot_digest-SameMetadata i j digest s good in
            let is = digest_lem j digest there in
            subst (λ x. verify_self_snapshot_auth_message x code role psk j ≡ ok tt) made
              (Proves-verify (record { role = role; digest = digest; mac = mac }) code role psk j
                (record {
                  role = refl;
                  well_formed = there ∙ ap ok is;
                  digest = ap hex_decode is ∙ hex-digest j;
                  mac = hex-mac code digest psk role;
                }))
      ]
