-- ===== src/Session.antt =====
-- internal/transport/session_store.go and internal/rendezvous/rendezvous.go: the values that a
-- rendezvous session holds. A time is a number of seconds; `SelfInfo.Public` is `public_addr` and
-- so on, and `Type` is `kind`.
use wormzy.Prelude.{
  ℕ, String, Bool, true, false, Option, List, ◌≡◌, refl, ◌⊎◌, inl, inr, if◌then◌else◌,
}
use wormzy.Prelude.Int.{ℤ}
use wormzy.Prelude.Dict.{Dict}

pub record Candidate : Type 0 where
  pub kind : String
  pub proto : String
  pub addr : String
  pub priority : ℤ

pub record SelfInfo : Type 0 where
  pub public_addr : String
  pub local_addr : String
  pub candidates : List Candidate
  pub features : List String

pub record TransferStats : Type 0 where
  pub mode : String
  pub transport : String
  pub candidate : String
  pub direct_outcome : String
  pub direct_summary : String
  pub bytes : ℤ
  pub duration_millis : ℤ
  pub completed : Bool
  pub error : String
  pub updated_unix : ℕ

pub record SessionPeer : Type 0 where
  pub id : ℕ
  pub role : String
  pub capability_hash : String
  pub info : Option SelfInfo
  pub registered_at : ℕ
  pub last_update : ℕ

pub record MsgPt : Type 0 where
  pub kind : String
  pub body : List ℕ

pub record RendezvousSession : Type 0 where
  pub code : String
  pub created_unix : ℤ
  pub ttl_seconds : ℕ
  pub sender : Option SessionPeer
  pub receiver : Option SessionPeer
  pub pending : Dict (List MsgPt)
  pub next_side_id : ℕ
  pub stats : Option TransferStats
  pub stats_by_role : Dict TransferStats

pub data StoreError : Type 0 where
  session_not_found : StoreError
  invalid_role : StoreError
  no_pending_message : StoreError
  mailbox_queue_full : StoreError
  mailbox_bytes_full : StoreError
  mailbox_capacity : StoreError
  mailbox_unavailable : StoreError
  mailbox_authentication : StoreError
  invalid_message : StoreError
  invalid_body : StoreError
  invalid_transfer_stats : StoreError

pub data Result {ℓ} (A : Type ℓ) : Type ℓ where
  ok : A → Result A
  err : StoreError → Result A

abbrev pub guard : Bool → StoreError → Result (Unit {0})
guard passes refusal = if passes then ok tt else err refusal

infixl 5 ◌>>◌
module _ {ℓ κ} {A : Type ℓ} {B : Type κ} where
  infixl 5 ◌>>=◌
  abbrev pub ◌>>=◌ : Result A → (A → Result B) → Result B
  err refusal >>= next = err refusal
  ok value >>= next = next value

  -- If a chain succeeds, its first step does.
  pub >>=-eq-ok :
      (first : Result A) (next : A → Result B) {result : B}
      → (first >>= next) ≡ ok result
      → (value : A) × (first ≡ ok value) × (next value ≡ ok result)
  >>=-eq-ok (err refusal) next succeeds = cc
  >>=-eq-ok (ok value) next succeeds = (value, refl, succeeds)

abbrev pub ◌>>◌ {κ} : {B : Type κ} → Result (Unit {0}) → Result B → Result B
first >> second = first >>= λ _. second

pub guard-eq-ok {κ} :
    {B : Type κ} (passes : Bool) (refusal : StoreError) (second : Result B) {result : B}
    → (guard passes refusal >> second) ≡ ok result
    → (passes ≡ true) × (second ≡ ok result)
guard-eq-ok true refusal second succeeds = (refl, succeeds)
guard-eq-ok false refusal second succeeds = cc

pub Result-cases {ℓ} :
    {A : Type ℓ} (answer : Result A)
    → ((value : A) × (answer ≡ ok value)) ⊎ ((refusal : StoreError) × (answer ≡ err refusal))
Result-cases (ok value) = inl (value, refl)
Result-cases (err refusal) = inr (refusal, refl)
