-- ===== src/Relay/Lifecycle/Conns.antt =====
-- The handlers that run, by connection.
use wormzy.Prelude.{
  ℕ, suc, ◌+◌, ◌<◌, String, ◌≡◌, ◌≢◌, refl, ◌==◌, Nat_eq, Text_eq, Option, none, some, List, [],
  ◌∷◌, All, length, map, arith, if◌then◌else◌, eq_iff,
}
use wormzy.Relay.{RelayHello, RelayPair}
use wormzy.Relay.Admission.{opens}

-- Where a handler stands: before its hello, waiting in the table for a partner, kept open for its
-- partner's handler after the time limit, or forwarding for a pair.
pub data Phase : Type 0 where
  registering : Phase
  waiting : RelayHello → Phase
  lingering : RelayHello → Phase
  owning : RelayPair → Phase

pub record Conn : Type 0 where
  pub id : ℕ
  pub ip : String
  pub phase : Phase

unfoldable pub find : ℕ → List Conn → Option Conn
find id [] = none
find id (c ∷ cs) = if c.id == id then some c else find id cs

-- The connection's record is replaced.
unfoldable pub put : Conn → List Conn → List Conn
put c [] = []
put c (d ∷ cs) = if d.id == c.id then c ∷ cs else d ∷ put c cs

unfoldable pub drop : ℕ → List Conn → List Conn
drop id [] = []
drop id (c ∷ cs) = if c.id == id then cs else c ∷ drop id cs

abbrev pub ips : List Conn → List String
ips = map λ c. c.ip

-- Every connection's number lies below `n`.
abbrev pub Below : ℕ → List Conn → Type 0
Below n = All λ c. c.id < n

pub find-id : (id : ℕ) (cs : List Conn) (c : Conn) → find id cs ≡ some c → c.id ≡ id
unfolding find
find-id id [] c h = cc
find-id id (d ∷ cs) c h = ground (arith, find-id id cs c)

pub find-put :
    (c d : Conn) (id : ℕ) (cs : List Conn)
    → find c.id cs ≡ some d
    → find id (put c cs) ≡ (if c.id == id then some c else find id cs)
unfolding find put
find-put c d id [] h = cc
find-put c d id (e ∷ cs) h = ground (arith, find-put c d id cs)

pub find-drop_ne : (i j : ℕ) (cs : List Conn) → i ≢ j → find j (drop i cs) ≡ find j cs
unfolding find drop
find-drop_ne i j [] h = refl
find-drop_ne i j (c ∷ cs) h = ground (arith, find-drop_ne i j cs)

pub find_fresh : (n : ℕ) (cs : List Conn) → Below n cs → find n cs ≡ none
unfolding find
find_fresh n [] h = refl
find_fresh n (c ∷ cs) h = ground (arith, find_fresh n cs h.1)

pub ips-put :
    (c d : Conn) (cs : List Conn) → find c.id cs ≡ some d → d.ip ≡ c.ip → ips (put c cs) ≡ ips cs
unfolding find put
ips-put c d [] h e = cc
ips-put c d (x ∷ cs) h e = ground (arith, ips-put c d cs)

pub opens-drop :
    (id : ℕ) (ip : String) (c : Conn) (cs : List Conn)
    → find id cs ≡ some c
    → opens ip (ips (drop id cs)) + (if c.ip == ip then 1 else 0) ≡ opens ip (ips cs)
unfolding find drop opens
opens-drop id ip c [] h = cc
opens-drop id ip c (x ∷ cs) h =
    ground (arith, opens-drop id ip c cs, eq_iff x.ip ip, eq_iff c.ip ip)

pub length-drop :
    (id : ℕ) (c : Conn) (cs : List Conn)
    → find id cs ≡ some c
    → length (ips (drop id cs)) + 1 ≡ length (ips cs)
unfolding find drop
length-drop id c [] h = cc
length-drop id c (x ∷ cs) h = ground (arith, length-drop id c cs)

pub Below-suc : (n : ℕ) (cs : List Conn) → Below n cs → Below (suc n) cs
Below-suc n [] h = tt
Below-suc n (c ∷ cs) h = (omega arith, Below-suc n cs h.1)

pub Below-put : (n : ℕ) (c : Conn) (cs : List Conn) → c.id < n → Below n cs → Below n (put c cs)
unfolding put
Below-put n c [] b h = tt
Below-put n c (d ∷ cs) b h = ground (arith, Below-put n c cs b h.1)

pub Below-drop : (n id : ℕ) (cs : List Conn) → Below n cs → Below n (drop id cs)
unfolding drop
Below-drop n id [] h = tt
Below-drop n id (d ∷ cs) h = ground (arith, Below-drop n id cs h.1)

pub Below-find : (n id : ℕ) (c : Conn) (cs : List Conn) → Below n cs → find id cs ≡ some c → id < n
unfolding find
Below-find n id c [] h e = absurd (unfold find in ground arith)
Below-find n id c (d ∷ cs) h e = ground (arith, Below-find n id c cs h.1)
