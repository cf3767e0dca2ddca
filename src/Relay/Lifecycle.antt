-- ===== src/Relay/Lifecycle.antt =====
-- internal/transport/relay_server.go, `handleConn`: the life of each connection. A step is one
-- thing that happens to one handler; handlers interleave as the list of events says. What the
-- network, the timers and the contexts decide is the choice of the event.
pub mod Conns
pub mod Invariant
use wormzy.Prelude.{
  ℕ, suc, String, Bool, true, false, Option, none, some, List, [], ◌∷◌, if◌then◌else◌,
}
use wormzy.Relay.{
  RelayHello, RelayServerClient, RelayPair, RelayServer, Registration, paired_with, retained,
  rejected, valid_relay_hello, admit_connection, release_connection, register, unregister_waiting,
}
use Conns.{Phase, registering, waiting, lingering, owning, Conn, find, put, drop}

-- `next` is fresh for the next connection that is accepted.
pub record System : Type 0 where
  pub server : RelayServer
  pub conns : List Conn
  pub next : ℕ

pub data Event : Type 0 where
  -- a connection from the address reaches `handleConn`
  accept : String → Event
  -- no stream, no deadline, or no hello that decodes
  hello_fails : ℕ → Event
  -- a hello is decoded
  hello : ℕ → RelayHello → Event
  -- the timer of a waiting peer fires
  wait_expires : ℕ → Event
  -- the connection or the server's context is done
  ends : ℕ → Event

-- Close the connection and give its admission back.
unfoldable pub finish : System → Conn → System
finish y c = record y { server = release_connection y.server c.ip; conns = drop c.id y.conns }

unfoldable pub after_register : System → Conn → RelayHello → Registration → RelayServer → System
unfolding finish
after_register y c h (rejected e) s = finish (record y { server = s }) c
after_register y c h retained s = record y {
  server = s;
  conns = put (record c { phase = waiting h }) y.conns;
}
after_register y c h (paired_with p) s = record y {
  server = s;
  conns = put (record c { phase = owning p }) y.conns;
}

abbrev pub client_of : Conn → RelayHello → RelayServerClient
client_of c h = record { conn = c.id; hello = h; source_ip = c.ip }

unfoldable pub on_hello : System → Conn → Phase → RelayHello → System
unfolding after_register finish
on_hello y c registering h =
    let (r, s) = register y.server (client_of c h) in
    if valid_relay_hello h then after_register y c h r s else finish y c
on_hello y c _ h = y

unfoldable pub on_hello_fails : System → Conn → Phase → System
unfolding finish
on_hello_fails y c registering = finish y c
on_hello_fails y c _ = y

-- At the time limit a peer that lost its slot to a partner stays, for the pair's owner.
unfoldable pub on_wait_expires : System → Conn → Phase → System
unfolding finish
on_wait_expires y c (waiting h) =
    let (removed, s) = unregister_waiting y.server (client_of c h) in
    if removed
    then finish (record y { server = s }) c
    else record y { server = s; conns = put (record c { phase = lingering h }) y.conns }
on_wait_expires y c _ = y

unfoldable pub on_ends : System → Conn → Phase → System
unfolding finish
on_ends y c registering = y
on_ends y c (waiting h) =
    finish (record y { server = (unregister_waiting y.server (client_of c h)).1 }) c
on_ends y c (lingering h) = finish y c
on_ends y c (owning p) = finish y c

abbrev pub at {ℓ} : {A : Type ℓ} → A → Option Conn → (Conn → A) → A
at y none f = y
at y (some c) f = f c

unfoldable pub step : System → Event → System
unfolding on_hello on_hello_fails on_wait_expires on_ends
step y (accept ip) =
    let (admitted, s) = admit_connection y.server ip in
    if admitted
    then record y {
      server = s;
      conns = record { id = y.next; ip = ip; phase = registering } ∷ y.conns;
      next = suc y.next;
    }
    else record y { server = s; next = suc y.next }
step y (hello_fails id) = at y (find id y.conns) (λ c. on_hello_fails y c c.phase)
step y (hello id h) = at y (find id y.conns) (λ c. on_hello y c c.phase h)
step y (wait_expires id) = at y (find id y.conns) (λ c. on_wait_expires y c c.phase)
step y (ends id) = at y (find id y.conns) (λ c. on_ends y c c.phase)

unfoldable pub run : System → List Event → System
unfolding step
run y [] = y
run y (e ∷ es) = run (step y e) es
