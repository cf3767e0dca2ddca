-- ===== src/Relay/Lifecycle/Invariant/Steps.antt =====
-- The invariant of the relay's handlers, kept by every event.
use wormzy.Prelude.{
  ◌⊎◌, ◌<◌, ◌≡◌, ◌≢◌, refl, Text_eq, eq_iff, some, arith, inl, inr, Option-cases, Bool-cases, ap,
  ◌∙◌, subst, Bool,
}
use wormzy.Prelude.Dict.{lookup, insert}
use wormzy.Relay.{
  RelayServer, RelayServerClient, RelayHello, Registration, paired_with, retained, rejected,
  relay_capacity, register, retain, join, unregister_waiting, valid_relay_hello, release_connection,
}
use wormzy.Relay.Admission.{
  Tracks, WithinLimits, opens, opens-close_one, length-close_one, release-Tracks,
}
use wormzy.Relay.Registry.{IsBounded, register-IsBounded, unregister_waiting-IsBounded}
use wormzy.Relay.Frames.{
  SameAdmission, register-SameAdmission, unregister_waiting-SameAdmission,
  release_connection-SameTable, Tracks-SameAdmission, WithinLimits-SameAdmission,
  IsBounded-SameTable, Tracks-opens,
}
use wormzy.Relay.Lifecycle.Conns.{
  Phase, registering, waiting, lingering, owning, Conn, find, put, ips, Below, ips-put, opens-drop,
  length-drop, Below-put, Below-drop, Below-find,
}
use wormzy.Relay.Lifecycle.{
  System, finish, after_register, client_of, on_hello, on_hello_fails, on_wait_expires, on_ends,
}
use wormzy.Relay.Lifecycle.Invariant.Table.{
  Held, Free, IsWaiting, Shrinks, Free-phase, Held-drop, Held-put, Held-retained, join-Shrinks,
  unregister_waiting-Shrinks, unregister_waiting-Free,
}

-- The counters count the running handlers, within the limits; the table is bounded, and each of
-- its entries belongs to a handler that waits.
pub record Inv (y : System) : Type 0 where
  pub tracks : Tracks y.server (ips y.conns)
  pub limits : WithinLimits y.server (ips y.conns)
  pub bounded : IsBounded y.server
  pub held : Held y.server.waiting y.conns
  pub below : Below y.next y.conns

module _ (y : System) (c : Conn) (v : Inv y) (f : find c.id y.conns ≡ some c) where
  one_open : 0 < opens c.ip (ips y.conns)
  one_open = ground (arith, opens-drop c.id c.ip c y.conns, eq_iff c.ip c.ip)

  -- The handler returns, and its entry in the table is gone.
  finish-Inv :
      (s : RelayServer)
      → SameAdmission y.server s
      → IsBounded s
      → Shrinks y.server.waiting s.waiting
      → Free c.id s.waiting
      → Inv (finish (record y { server = s }) c)
  unfolding finish release_connection
  finish-Inv s e b sh fr = record {
    tracks =
        Tracks-opens _ _ _
          (omega (arith, length-drop c.id c y.conns, length-close_one c.ip (ips y.conns) one_open))
          (λ ip.
            omega
              (arith, opens-drop c.id ip c y.conns, opens-close_one c.ip ip (ips y.conns) one_open))
          (release-Tracks s c.ip (ips y.conns) (Tracks-SameAdmission y.server s e _ v.tracks)
            one_open);
    limits = record {
      total = omega (
        arith,
        length-drop c.id c y.conns,
        (WithinLimits-SameAdmission y.server s e _ v.limits).total,
      );
      each = λ ip. omega (
        arith,
        opens-drop c.id ip c y.conns,
        (WithinLimits-SameAdmission y.server s e _ v.limits).each ip,
      );
    };
    bounded = IsBounded-SameTable s _ (release_connection-SameTable s c.ip) b;
    held = Held-drop y.server.waiting y.conns v.held c.id s.waiting sh fr;
    below = Below-drop y.next c.id y.conns v.below;
  }

  -- The handler goes on in another phase.
  stays-Inv :
      (s : RelayServer) (p : Phase)
      → SameAdmission y.server s
      → IsBounded s
      → Held s.waiting (put (record c { phase = p }) y.conns)
      → Inv (record y { server = s; conns = put (record c { phase = p }) y.conns })
  stays-Inv s p e b h = record {
    tracks =
        rw (ips-put (record c { phase = p }) c y.conns f refl)
          (Tracks-SameAdmission y.server s e _ v.tracks);
    limits =
        rw (ips-put (record c { phase = p }) c y.conns f refl)
          (WithinLimits-SameAdmission y.server s e _ v.limits);
    bounded = b;
    held = h;
    below =
        Below-put y.next (record c { phase = p }) y.conns
          (Below-find y.next c.id c y.conns v.below f) v.below;
  }

  SameAdmission-refl : SameAdmission y.server y.server
  SameAdmission-refl = record {
    live = refl;
    live_n = refl;
    live_limit = refl;
    live_per_ip_limit = refl;
  }

  finish_now : ¬ IsWaiting c.phase → Inv (finish y c)
  finish_now n =
      finish-Inv y.server SameAdmission-refl v.bounded (λ k w l. l)
        (Free-phase y.server.waiting y.conns v.held c f n)

  not-IsWaiting : (p : Phase) → c.phase ≡ p → ¬ IsWaiting p → ¬ IsWaiting c.phase
  not-IsWaiting p e n w = n (subst IsWaiting e w)

  -- The table of a client that registers.
  module _ (h : RelayHello) (p : c.phase ≡ registering) where
    Free-find : Free c.id y.server.waiting
    Free-find =
        Free-phase y.server.waiting y.conns v.held c f (not-IsWaiting registering p (λ w. w))

    joined-Inv :
        (other : RelayServerClient)
        → register y.server (client_of c h) ≡ join y.server other (client_of c h)
        → let r = register y.server (client_of c h) in Inv (after_register y c h r.0 r.1)
    joined-Inv other e =
        let same = register-SameAdmission y.server (client_of c h) in
        let b = register-IsBounded y.server (client_of c h) v.bounded in
        let sh : Shrinks y.server.waiting (register y.server (client_of c h)).1.waiting =
          rw e (join-Shrinks y.server other (client_of c h) v.bounded.distinct) in
        let fr : Free c.id (register y.server (client_of c h)).1.waiting =
          λ k w l. Free-find k w (sh k w l) in
        outcome (register y.server (client_of c h)).0 (register y.server (client_of c h)).1 same b
          sh fr (rw e (no_retain other))
      where
        no_retain : (o : RelayServerClient) → (join y.server o (client_of c h)).0 ≢ retained
        no_retain o q = unfold join in ground arith

        outcome :
            (r : Registration) (s : RelayServer)
            → SameAdmission y.server s
            → IsBounded s
            → Shrinks y.server.waiting s.waiting
            → Free c.id s.waiting
            → r ≢ retained
            → Inv (after_register y c h r s)
        outcome (paired_with q) s same b sh fr n =
            unfold after_register in
            stays-Inv s (owning q) same b (
              Held-put y.server.waiting y.conns v.held (record c { phase = owning q }) c s.waiting f
                sh fr)
        outcome retained s same b sh fr n = absurd (n refl)
        outcome (rejected e) s same b sh fr n = unfold after_register in finish-Inv s same b sh fr

    retain_cases :
        (retain y.server (client_of c h) ≡ (rejected relay_capacity, y.server))
        ⊎ (((retain y.server (client_of c h)).0 ≡ retained)
            × ((retain y.server (client_of c h)).1.waiting
                ≡ insert h.session (client_of c h) y.server.waiting))
    unfolding retain
    retain_cases = ground arith

    retained-Inv :
        register y.server (client_of c h) ≡ retain y.server (client_of c h)
        → let r = register y.server (client_of c h) in Inv (after_register y c h r.0 r.1)
    retained-Inv e = elim retain_cases [
      | inl q ↦ rw (e ∙ q) (
          unfold after_register in
          finish-Inv y.server SameAdmission-refl v.bounded (λ k w l. l) Free-find)
      | inr (kept, table) ↦ rw (ap (λ (r : Registration × RelayServer). r.0) e ∙ kept) (
          unfold after_register in
          stays-Inv (register y.server (client_of c h)).1 (waiting h)
            (register-SameAdmission y.server (client_of c h))
            (register-IsBounded y.server (client_of c h) v.bounded)
            (rw (ap (λ (r : Registration × RelayServer). r.1.waiting) e ∙ table)
              (Held-retained y.server.waiting y.conns v.held c h h.session f Free-find)))
    ]

    register-Inv : let r = register y.server (client_of c h) in Inv (after_register y c h r.0 r.1)
    register-Inv = elim (Option-cases (lookup h.session y.server.waiting)) [
      | inl e ↦ retained-Inv (unfold register in ground (arith, e))
      | inr (other, e) ↦ joined-Inv other (unfold register in ground (arith, e))
    ]

  module _ (h : RelayHello) (p : c.phase ≡ waiting h) where
    -- The server after the peer's slot is given up.
    abbrev left : Bool × RelayServer
    left = unregister_waiting y.server (client_of c h)

    left-Same : SameAdmission y.server left.1
    left-Same = unregister_waiting-SameAdmission y.server (client_of c h)

    left-IsBounded : IsBounded left.1
    left-IsBounded = unregister_waiting-IsBounded y.server (client_of c h) v.bounded

    left-Shrinks : Shrinks y.server.waiting left.1.waiting
    left-Shrinks = unregister_waiting-Shrinks y.server (client_of c h) v.bounded.distinct

    left-Free : Free c.id left.1.waiting
    left-Free = unregister_waiting-Free y.server c h y.conns v.bounded v.held f p

    leaves-Inv : Inv (finish (record y { server = left.1 }) c)
    leaves-Inv = finish-Inv left.1 left-Same left-IsBounded left-Shrinks left-Free

    lingers-Inv :
        Inv (record y { server = left.1; conns = put (record c { phase = lingering h }) y.conns })
    lingers-Inv = stays-Inv left.1 (lingering h) left-Same left-IsBounded (
        Held-put y.server.waiting y.conns v.held (record c { phase = lingering h }) c left.1.waiting
          f left-Shrinks left-Free)

  pub on_hello-Inv : (p : Phase) (h : RelayHello) → c.phase ≡ p → Inv (on_hello y c p h)
  unfolding on_hello
  on_hello-Inv registering h e = elim (Bool-cases (valid_relay_hello h)) [
    | inl good ↦ rw good (register-Inv h e)
    | inr bad ↦ rw bad (finish_now (not-IsWaiting registering e (λ w. w)))
  ]
  on_hello-Inv _ h e = v

  pub on_hello_fails-Inv : (p : Phase) → c.phase ≡ p → Inv (on_hello_fails y c p)
  unfolding on_hello_fails
  on_hello_fails-Inv registering e = finish_now (not-IsWaiting registering e (λ w. w))
  on_hello_fails-Inv _ e = v

  pub on_wait_expires-Inv : (p : Phase) → c.phase ≡ p → Inv (on_wait_expires y c p)
  unfolding on_wait_expires
  on_wait_expires-Inv (waiting h) e = elim (Bool-cases (left h e).0) [
    | inl gone ↦ rw gone (leaves-Inv h e)
    | inr lost ↦ rw lost (lingers-Inv h e)
  ]
  on_wait_expires-Inv _ e = v

  pub on_ends-Inv : (p : Phase) → c.phase ≡ p → Inv (on_ends y c p)
  unfolding on_ends
  on_ends-Inv registering e = v
  on_ends-Inv (waiting h) e = leaves-Inv h e
  on_ends-Inv (lingering h) e = finish_now (not-IsWaiting (lingering h) e (λ w. w))
  on_ends-Inv (owning p) e = finish_now (not-IsWaiting (owning p) e (λ w. w))
