-- ===== src/Candidates/External.antt =====
-- internal/transport/upnp.go, isUsableExternalIPv4: which addresses it lets pass.
use wormzy.Prelude.{
  ◌≤◌, ◌<◌, if◌then◌else◌, ◌≢◌, Nat_eq, true, false, not, ◌||◌, ◌==◌, Text_eq, ◌≡◌, refl, Bool,
  ◌&&◌, ltb, leb, arith,
}
use wormzy.Candidates.{
  Ip4, is_usable_external_ipv4, is_global_unicast, is_private, is_loopback, is_link_local,
  is_unspecified,
}

-- An address outside every network that is not on the public Internet: this network, private and
-- shared address space, loopback, link-local, the protocol, documentation and benchmarking
-- networks, the relay anycast network, multicast and what is reserved above it.
pub record IsExternal (ip : Ip4) : Type 0 where
  pub this_network : ip.a ≢ 0
  pub ten : ip.a ≢ 10
  pub loopback : ip.a ≢ 127
  pub from_224 : ip.a < 224
  pub private_172 : ¬ ((ip.a ≡ 172) × (16 ≤ ip.b) × (ip.b < 32))
  pub private_192 : ¬ ((ip.a ≡ 192) × (ip.b ≡ 168))
  pub shared : ¬ ((ip.a ≡ 100) × (64 ≤ ip.b) × (ip.b < 128))
  pub link_local : ¬ ((ip.a ≡ 169) × (ip.b ≡ 254))
  pub protocols : ¬ ((ip.a ≡ 192) × (ip.b ≡ 0) × (ip.c ≡ 0))
  pub documentation_1 : ¬ ((ip.a ≡ 192) × (ip.b ≡ 0) × (ip.c ≡ 2))
  pub documentation_2 : ¬ ((ip.a ≡ 198) × (ip.b ≡ 51) × (ip.c ≡ 100))
  pub documentation_3 : ¬ ((ip.a ≡ 203) × (ip.b ≡ 0) × (ip.c ≡ 113))
  pub anycast : ¬ ((ip.a ≡ 192) × (ip.b ≡ 88) × (ip.c ≡ 99))
  pub benchmarks : ¬ ((ip.a ≡ 198) × (18 ≤ ip.b) × (ip.b < 20))

-- A test that refuses, before the others.
passes : (test rest : Bool) → (if test then false else rest) ≡ true → (test ≡ false) × (rest ≡ true)
passes true rest h = absurd (ground arith)
passes false rest h = (refl, h)

either : (p q : Bool) → (p || q) ≡ false → (p ≡ false) × (q ≡ false)
either p q h = ground (arith, h)

external :
    (ip : Ip4)
    → (not (is_global_unicast ip)
        || (is_private ip || (is_loopback ip || (is_link_local ip || is_unspecified ip))))
      ≡ false
    → (ip.a == 0) ≡ false
    → (ip.a == 100 && (leb 64 ip.b && ltb ip.b 128)) ≡ false
    → (ip.a == 192 && (ip.b == 0 && (ip.c == 0 || ip.c == 2))) ≡ false
    → (ip.a == 192 && (ip.b == 88 && ip.c == 99)) ≡ false
    → (ip.a == 198 && (ip.b == 18 || ip.b == 19)) ≡ false
    → (ip.a == 198 && (ip.b == 51 && ip.c == 100)) ≡ false
    → (ip.a == 203 && (ip.b == 0 && ip.c == 113)) ≡ false
    → not (leb 224 ip.a) ≡ true
    → IsExternal ip
external ip unicast zeros carrier assigned relays tested second third low =
    let (_, inner) =
      either (not (is_global_unicast ip))
        (is_private ip || (is_loopback ip || (is_link_local ip || is_unspecified ip))) unicast in
    let (private, outer) =
      either (is_private ip) (is_loopback ip || (is_link_local ip || is_unspecified ip)) inner in
    let (looped, last) = either (is_loopback ip) (is_link_local ip || is_unspecified ip) outer in
    let (local, _) = either (is_link_local ip) (is_unspecified ip) last in
    record {
      this_network = λ e. ground (arith, zeros, e);
      ten = λ e. ground (arith, private, e);
      loopback = λ e. ground (arith, looped, e);
      from_224 = ground (arith, low);
      private_172 = λ (e, f, g). ground (arith, private, e, f, g);
      private_192 = λ (e, f). ground (arith, private, e, f);
      shared = λ (e, f, g). ground (arith, carrier, e, f, g);
      link_local = λ (e, f). ground (arith, local, e, f);
      protocols = λ (e, f, g). ground (arith, assigned, e, f, g);
      documentation_1 = λ (e, f, g). ground (arith, assigned, e, f, g);
      documentation_2 = λ (e, f, g). ground (arith, second, e, f, g);
      documentation_3 = λ (e, f, g). ground (arith, third, e, f, g);
      anycast = λ (e, f, g). ground (arith, relays, e, f, g);
      benchmarks = λ (e, f, g). ground (arith, tested, e, f, g);
    }

pub usable-IsExternal : (ip : Ip4) → is_usable_external_ipv4 ip ≡ true → IsExternal ip
unfolding is_usable_external_ipv4
usable-IsExternal ip h =
    let (unicast, h1) = passes _ _ h in
    let (zeros, h2) = passes _ _ h1 in
    let (carrier, h3) = passes _ _ h2 in
    let (assigned, h4) = passes _ _ h3 in
    let (relays, h5) = passes _ _ h4 in
    let (tested, h6) = passes _ _ h5 in
    let (second, h7) = passes _ _ h6 in
    let (third, low) = passes _ _ h7 in
    external ip unicast zeros carrier assigned relays tested second third low
