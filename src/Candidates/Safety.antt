-- ===== src/Candidates/Safety.antt =====
-- internal/transport/dilation.go, selectPeerCandidates: what a peer can make a client dial.
use wormzy.Prelude.{
  ℕ, ◌≤◌, ◌<◌, Nat_eq, All-mono, String, true, false, not, ◌||◌, ◌==◌, Text_eq, eq_iff, Option,
  none, some, List, [], ◌∷◌, contains, All, All-append, ◌≡◌, ◌⊎◌, inl, inr, ap, sym, ◌∙◌, arith,
  Option-cases, Bool-cases,
}
use wormzy.Prelude.Fallible.{ok}
use wormzy.Prelude.Sort.{sorted, IsSorted, sorted-IsSorted, All-sorted}
use wormzy.Session.{Candidate, SelfInfo}
use wormzy.Candidates.{Ip4, Texts}
use wormzy.Candidates.Normal.{accept_target, target_of, normalized_peer_candidate, udp_candidate}
use wormzy.Candidates.Select.{
  is_seen, add_direct, races_before, allowed_relays, Selected, take_candidate, collect, add_legacy,
  with_legacy, usable, select_peer_candidates,
}
use wormzy.Candidates.Distinct.{AreDistinct, AreDistinct-append, AreDistinct-sorted}
use wormzy.Candidates.External.{IsExternal, usable-IsExternal}
use wormzy.Candidates.Offers.{
  Offer, InPlace, place_of, accept_target-Offer, races_before-asym, place_of-le,
}

module _ ⦃T : Texts⦄ where
  -- A target on the public Internet.
  pub record IsPublic (c : Candidate) : Type 0 where
    pub ip : Ip4
    pub port : ℕ
    pub addr : c.addr ≡ T.join ip port
    pub is_external : IsExternal ip
    pub port_positive : 0 < port
    pub port_bound : port ≤ 65535
    pub proto : c.proto ≡ "udp"
    pub offer : Offer c

  target_of-port :
      (addr : String) (ip : Ip4) (port : ℕ)
      → target_of addr ≡ some (ip, port)
      → (0 < port) × (port ≤ 65535)
  unfolding target_of
  target_of-port addr ip port h = elim (Option-cases (T.split_host_port addr)) [
    | inl whole ↦ absurd (ground (arith, h, whole))
    | inr ((host, digits), split) ↦ elim (Option-cases (T.atoi digits)) [
      | inl text ↦ absurd (ground (arith, h, split, text))
      | inr (n, number) ↦ elim (Option-cases (T.parse_ip4 host)) [
        | inl named ↦ absurd (ground (arith, h, split, number, named))
        | inr (a, parsed) ↦ ground (arith, h, split, number, parsed)
      ]
    ]
  ]

  accept_target-IsPublic :
      (typ : String) (ip : Ip4) (port : ℕ) (c : Candidate)
      → (typ == "relay") ≡ false
      → (0 < port) × (port ≤ 65535)
      → accept_target typ ip (T.join ip port) false false ≡ some c
      → ((c.kind == "relay") ≡ false) × IsPublic c
  unfolding accept_target
  accept_target-IsPublic typ ip port c other in_range h = (
    ground (arith, h, other),
    record {
      ip = ip;
      port = port;
      addr = ground (arith, h);
      is_external = usable-IsExternal ip (ground (arith, h));
      port_positive = in_range.0;
      port_bound = in_range.1;
      proto = ground (arith, h);
      offer = accept_target-Offer typ ip (T.join ip port) c h;
    },
  )

  normalized-IsPublic :
      (c d : Candidate) (relays : List String)
      → (T.plain c.kind == "relay") ≡ false
      → normalized_peer_candidate c false false relays ≡ some d
      → ((d.kind == "relay") ≡ false) × IsPublic d
  unfolding normalized_peer_candidate
  normalized-IsPublic c d relays other h = elim (Option-cases (target_of c.addr)) [
    | inl nowhere ↦ absurd (ground (arith, h, other, nowhere))
    | inr ((ip, port), at) ↦
        accept_target-IsPublic (T.plain c.kind) ip port d other (target_of-port c.addr ip port at)
          (ground (arith, h, other, at))
  ]

  -- Outside loopback, a candidate that is accepted is one of the client's own relays or is public.
  normalized_peer_candidate-cases :
      (c d : Candidate) (relays : List String)
      → normalized_peer_candidate c false false relays ≡ some d
      → (((d.kind == "relay") ≡ true) × (contains relays d.addr ≡ true))
        ⊎ (((d.kind == "relay") ≡ false) × IsPublic d)
  unfolding normalized_peer_candidate
  normalized_peer_candidate-cases c d relays h = elim (Bool-cases (T.plain c.kind == "relay")) [
    | inl relay ↦
        let same : udp_candidate "relay" c.addr 40 ≡ d = ground (arith, h, relay) in
        let own : contains relays c.addr ≡ true = ground (arith, h, relay) in
        inl (
          (eq_iff d.kind "relay").1 (sym (ap (λ (x : Candidate). x.kind) same)),
          ap (λ (x : Candidate). contains relays x.addr) (sym same) ∙ own,
        )
    | inr other ↦ inr (normalized-IsPublic c d relays other h)
  ]

  -- What is collected so far.
  record IsSafe (relays : List String) (s : Selected) : Type 0 where
    public : All IsPublic s.direct
    distinct : AreDistinct s.direct
    own_relay : (c : Candidate) → s.relay ≡ some c → contains relays c.addr ≡ true

  add_direct-IsSafe :
      (relays : List String) (c : Candidate) (s : Selected)
      → IsPublic c
      → IsSafe relays s
      → IsSafe relays (record s { direct = add_direct c s.direct })
  unfolding add_direct
  add_direct-IsSafe relays c s at h =
      elim (Bool-cases (not (c.proto == "udp") || (c.addr == "" || is_seen c s.direct))) [
        | inl skipped ↦ rw skipped h
        | inr added ↦ rw added (record {
          public = All-append IsPublic s.direct (c ∷ []) h.public (at, tt);
          distinct = AreDistinct-append c s.direct (ground (arith, added)) h.distinct;
          own_relay = h.own_relay;
        })
      ]

  take_candidate-IsSafe :
      (relays : List String) (c : Candidate) (s : Selected)
      → IsSafe relays s
      → IsSafe relays (take_candidate (normalized_peer_candidate c false false relays) s)
  take_candidate-IsSafe relays c s h =
      elim (Option-cases (normalized_peer_candidate c false false relays)) [
        | inl refused ↦ rw refused h
        | inr (d, accepted) ↦ elim (normalized_peer_candidate-cases c d relays accepted) [
          | inl (relay, own) ↦
              rw (accepted, relay)
                (record {
                  public = h.public;
                  distinct = h.distinct;
                  own_relay = λ e same. elim (Option-cases s.relay) [
                    | inl nobody ↦
                        let it : d ≡ e = ground (arith, nobody, same) in
                        ap (λ (x : Candidate). contains relays x.addr) (sym it) ∙ own
                    | inr (first, before) ↦ h.own_relay e (ground (arith, before, same))
                  ];
                })
          | inr (other, at) ↦ rw (accepted, other) (add_direct-IsSafe relays d s at h)
        ]
      ]

  collect-IsSafe :
      (relays : List String) (cs : List Candidate) (s : Selected)
      → IsSafe relays s
      → IsSafe relays (collect false relays cs s)
  unfolding collect
  collect-IsSafe relays [] s h = h
  collect-IsSafe relays (c ∷ cs) s h =
      collect-IsSafe relays cs (take_candidate (normalized_peer_candidate c false false relays) s)
        (take_candidate-IsSafe relays c s h)

  add_legacy-IsSafe :
      (relays : List String) (c : Candidate) (s : Selected)
      → (T.plain c.kind == "relay") ≡ false
      → IsSafe relays s
      → IsSafe relays (add_legacy (normalized_peer_candidate c false false relays) s)
  add_legacy-IsSafe relays c s other h =
      elim (Option-cases (normalized_peer_candidate c false false relays)) [
        | inl refused ↦ rw refused h
        | inr (d, accepted) ↦
            rw accepted
              (add_direct-IsSafe relays d s (normalized-IsPublic c d relays other accepted).1 h)
      ]

  with_legacy-IsSafe :
      (relays : List String) (peer : SelfInfo) (s : Selected)
      → IsSafe relays s
      → IsSafe relays (with_legacy false relays peer s)
  unfolding with_legacy
  with_legacy-IsSafe relays peer s h = elim (Bool-cases (peer.public_addr == "")) [
    | inl silent ↦ rw silent h
    | inr spoken ↦ rw spoken (
        add_legacy-IsSafe relays (udp_candidate "legacy-public" peer.public_addr 10) s
          (ap (λ typ. typ == "relay") T.plain_legacy) h)
  ]

  -- What a client dials for a peer: its public targets, each once and in the order of the race, and
  -- a relay of the client's own.
  pub record IsDialable (self : SelfInfo) (direct : List Candidate) (relay : Option Candidate)
      : Type 0 where
    pub public : All IsPublic direct
    pub distinct : AreDistinct direct
    pub in_order : InPlace direct
    pub own_relay :
        (c : Candidate) → relay ≡ some c → contains (allowed_relays self.candidates) c.addr ≡ true

  IsSorted-InPlace :
      (cs : List Candidate) → All IsPublic cs → IsSorted (races_before false) cs → InPlace cs
  IsSorted-InPlace [] p s = tt
  IsSorted-InPlace (c ∷ []) p s = (tt, tt)
  IsSorted-InPlace (c ∷ d ∷ cs) p s =
      let rest = IsSorted-InPlace (d ∷ cs) p.1 s.1 in
      let first = place_of-le c d p.0.offer p.1.0.offer s.0 in
      (
        (
          first,
          All-mono (λ x. place_of d.kind ≤ place_of x.kind) (λ x. place_of c.kind ≤ place_of x.kind)
              (λ x after. omega (arith, after, first)) cs rest.0,
        ),
        rest,
      )

  usable-IsDialable :
      (self : SelfInfo) (r relay : Option Candidate) (found direct : List Candidate)
      → IsSafe (allowed_relays self.candidates) (record { relay = r; direct = found })
      → usable false (record { relay = r; direct = found }) ≡ ok (direct, relay)
      → IsDialable self direct relay
  usable-IsDialable self none relay [] direct safe h = absurd (ground (arith, h))
  usable-IsDialable self (some c) relay [] direct safe h =
      let none_found : [] ≡ direct = ground (arith, h) in
      let same : some c ≡ relay = ground (arith, h) in
      rw (← none_found, ← same)
        (record { public = tt; distinct = tt; in_order = tt; own_relay = safe.own_relay })
  usable-IsDialable self r relay (c ∷ cs) direct safe h =
      let less = races_before false in
      let are : sorted less (c ∷ cs) ≡ direct = ground (arith, h) in
      let same : r ≡ relay = ground (arith, h) in
      rw (← are, ← same)
        (record {
          public = All-sorted less IsPublic (c ∷ cs) safe.public;
          distinct = AreDistinct-sorted less (c ∷ cs) safe.distinct;
          in_order =
              IsSorted-InPlace (sorted less (c ∷ cs))
                (All-sorted less IsPublic (c ∷ cs) safe.public)
                (sorted-IsSorted less races_before-asym (c ∷ cs));
          own_relay = safe.own_relay;
        })

  -- Outside loopback, if a selection succeeds, then each direct target is an IPv4 address outside
  -- every network that is listed as not public, with a port from 1 to 65535, over UDP, offered by
  -- UPnP, by STUN or as a legacy public address; no target stands twice; those of UPnP stand first,
  -- then those of STUN, then the legacy one; and a relay candidate has an address that the client
  -- has configured itself.
  pub select_peer_candidates-IsDialable :
      (self peer : SelfInfo) (direct : List Candidate) (relay : Option Candidate)
      → select_peer_candidates self peer false ≡ ok (direct, relay)
      → IsDialable self direct relay
  unfolding select_peer_candidates
  select_peer_candidates-IsDialable self peer direct relay h =
      let relays = allowed_relays self.candidates in
      let found = collect false relays peer.candidates (record { relay = none; direct = [] }) in
      let safe = with_legacy-IsSafe relays peer found (
        collect-IsSafe relays peer.candidates (record { relay = none; direct = [] })
          (record { public = tt; distinct = tt; own_relay = λ c e. absurd (ground (arith, e)) })) in
      let all = with_legacy false relays peer found in
      usable-IsDialable self all.relay relay all.direct direct safe (ground (arith, h))
