-- ===== src/Relay/Lifecycle/Invariant/Table.antt =====
-- The waiting table and the handlers: each entry belongs to a handler that waits.
use wormzy.Prelude.{
  ℕ, ◌≡◌, ◌≢◌, String, Text_eq, Nat_eq, eq_iff, Option, none, some, List, arith, ap, sym, subst,
  ◌∙◌,
}
use wormzy.Prelude.Dict.{Dict, Distinct, lookup, insert, lookup-insert, lookup-erase}
use wormzy.Relay.{RelayServer, RelayServerClient, RelayHello, join, unregister_waiting}
use wormzy.Relay.Registry.{IsBounded}
use wormzy.Relay.Lifecycle.Conns.{Phase, waiting, Conn, find, put, drop, find-put, find-drop_ne}

abbrev pub waiter : RelayServerClient → Conn
waiter w = record { id = w.conn; ip = w.source_ip; phase = waiting w.hello }

-- The handler of each entry runs, and waits with the entry's hello.
abbrev pub Held : Dict RelayServerClient → List Conn → Type 0
Held table cs =
    (k : String) (w : RelayServerClient)
    → lookup k table ≡ some w
    → find w.conn cs ≡ some (waiter w)

-- No entry belongs to the connection.
abbrev pub Free : ℕ → Dict RelayServerClient → Type 0
Free id table = (k : String) (w : RelayServerClient) → lookup k table ≡ some w → id ≢ w.conn

abbrev pub IsWaiting : Phase → Type 0
IsWaiting (waiting h) = Unit
IsWaiting _ = ⊥

abbrev WaitsThere : Option Conn → Type 0
WaitsThere none = ⊥
WaitsThere (some c) = IsWaiting c.phase

-- Entries are only taken away.
abbrev pub Shrinks : Dict RelayServerClient → Dict RelayServerClient → Type 0
Shrinks m n = (k : String) (w : RelayServerClient) → lookup k n ≡ some w → lookup k m ≡ some w

module _ (table : Dict RelayServerClient) (cs : List Conn) (held : Held table cs) where
  pub Free-phase : (c : Conn) → find c.id cs ≡ some c → ¬ IsWaiting c.phase → Free c.id table
  Free-phase c f n k w l e =
      n (subst WaitsThere (sym (sym f ∙ ap (λ i. find i cs) e ∙ held k w l)) tt)

  pub Held-drop :
      (id : ℕ) (n : Dict RelayServerClient) → Shrinks table n → Free id n → Held n (drop id cs)
  Held-drop id n sh fr k w l = find-drop_ne id w.conn cs (fr k w l) ∙ held k w (sh k w l)

  pub Held-put :
      (c d : Conn) (n : Dict RelayServerClient)
      → find c.id cs ≡ some d
      → Shrinks table n
      → Free c.id n
      → Held n (put c cs)
  Held-put c d n f sh fr k w l =
      ground (arith, find-put c d w.conn cs, held k w (sh k w l), fr k w l)

  pub Held-retained :
      (c : Conn) (h : RelayHello) (k : String)
      → find c.id cs ≡ some c
      → Free c.id table
      → Held
          (insert k (record { conn = c.id; hello = h; source_ip = c.ip }) table)
          (put (record c { phase = waiting h }) cs)
  Held-retained c h k f fr j w l = ground (
    arith,
    find-put (record c { phase = waiting h }) c w.conn cs,
    lookup-insert k j (record { conn = c.id; hello = h; source_ip = c.ip }) table,
    held j w,
    fr j w,
  )

-- What a registration leaves in the table.
pub join-Shrinks :
    (s : RelayServer) (other client : RelayServerClient)
    → Distinct s.waiting
    → Shrinks s.waiting (join s other client).1.waiting
unfolding join
join-Shrinks s other client d k w l =
    ground (arith, d, lookup-erase client.hello.session k s.waiting, eq_iff client.hello.session k)

pub unregister_waiting-Shrinks :
    (s : RelayServer) (client : RelayServerClient)
    → Distinct s.waiting
    → Shrinks s.waiting (unregister_waiting s client).1.waiting
unfolding unregister_waiting
unregister_waiting-Shrinks s client d k w l =
    ground (arith, d, lookup-erase client.hello.session k s.waiting, eq_iff client.hello.session k)

-- A peer that has left the table left no entry behind.
pub unregister_waiting-Free :
    (s : RelayServer) (c : Conn) (h : RelayHello) (cs : List Conn)
    → IsBounded s
    → Held s.waiting cs
    → find c.id cs ≡ some c
    → c.phase ≡ waiting h
    → Free c.id
        (unregister_waiting s (record { conn = c.id; hello = h; source_ip = c.ip })).1.waiting
unfolding unregister_waiting
unregister_waiting-Free s c h cs v held f p k w l e = ground (
  arith,
  v.distinct,
  lookup-erase h.session k s.waiting,
  eq_iff h.session k,
  held k w,
  v.keyed k w,
  ap (λ i. find i cs) e,
)
