-- ===== src/Tun/Router.antt =====
-- internal/tun/router.go. A sink is a parameter: `send` hands it a packet, changes the world, and says
-- whether it gave no error. An IPv4 address is its four bytes; `netip.Addr` has other values, which the
-- router never stores. The counters are uint64.
pub mod Accounts
use network_project.Prelude.{
  ℕ, zero, suc, ◌+◌, ◌-◌, ◌*◌, ◌/◌, ◌%◌, ◌^◌, ◌≤◌, ◌<◌, ◌≡◌, refl, sym, ap, ◌∙◌, ◌≢◌, ◌↔◌, ◌⊎◌, inl,
  inr, Bool, true, false, not, ◌&&◌, ◌||◌, List, [], ◌∷◌, ◌++◌, map, Option, none, some, arith,
  Bytes, AllBytes, All, length, get_or, set, take, drop, replicate, ltb, leb, ◌==◌, if◌then◌else◌,
  Bool-cases, if-rule, Option-cases, Result, ok, err, ◌>>=◌, ◌>>◌, fail_if, wrap, put_u16, u16_at,
  put_u32, u32_at, equal, equal_iff, equal_refl, Result-cases, length-append, take-append,
  drop-append, ltb→lt, ltb→ge, lt→ltb, ge→ltb, ==_iff,
}
use network_project.Prelude.Assoc.{bytes_Eq, lookup, insert, delete}

pub data Addr : Type 0 where
  ip4 : Bytes → Addr
  no_ip4 : Addr

-- the checks of `parseIPv4`, on the header length and the total length that the packet states
abbrev pub fits_ipv4 : Bytes → ℕ → ℕ → Bool
fits_ipv4 pkt ihl total =
    not (ltb ihl 20 || ltb (length pkt) ihl) && not (ltb total ihl || ltb (length pkt) total)

-- source and destination
unfoldable pub parse_ipv4 : Bytes → Option (Bytes × Bytes)
parse_ipv4 pkt =
    if ltb (length pkt) 20 || not (get_or pkt 0 0 / 16 == 4)
    then none
    else if fits_ipv4 pkt (get_or pkt 0 0 % 16 * 4) (u16_at (drop 2 pkt))
    then some (take 4 (drop 12 pkt), take 4 (drop 16 pkt))
    else none

abbrev next64 : ℕ → ℕ
next64 n = (n + 1) % 2 ^ 64

module _ (Sink World : Type 0) (send : World → Sink → Bytes → World × Bool) where
  pub record Router : Type 0 where
    pub routes : List (Bytes × Sink)
    pub pkts_in : ℕ
    pub pkts_routed : ℕ
    pub pkts_dropped : ℕ

  unfoldable pub new_router : Router
  new_router = record { routes = []; pkts_in = 0; pkts_routed = 0; pkts_dropped = 0 }

  unfoldable pub set_route : Router → Addr → Option Sink → Router
  set_route r no_ip4 s = r
  set_route r (ip4 dst) none = record r { routes = delete dst r.routes }
  set_route r (ip4 dst) (some s) = record r { routes = insert dst s r.routes }

  unfoldable pub has_route : Router → Addr → Bool
  has_route r no_ip4 = false
  has_route r (ip4 dst) = elim (lookup dst r.routes) [ none ↦ false | some _ ↦ true ]

  -- the counters of a packet that was offered and not delivered
  abbrev pub refused : Router → Router
  refused r = record r { pkts_in = next64 r.pkts_in; pkts_dropped = next64 r.pkts_dropped }

  unfoldable pub forward : Router → World → Sink → Bytes → (Router × World) × Bool
  forward r w sink pkt =
      let (w', sent) = send w sink pkt in
      if not sent
      then ((refused r, w'), false)
      else ((record r { pkts_in = next64 r.pkts_in; pkts_routed = next64 r.pkts_routed }, w'), true)

  unfoldable pub route_packet : Router → World → Bytes → (Router × World) × Bool
  route_packet r w pkt = elim (parse_ipv4 pkt) [
    | none ↦ ((record r { pkts_dropped = next64 r.pkts_dropped }, w), false)
    | some (src, dst) ↦ elim (lookup dst r.routes) [
      | none ↦ ((refused r, w), false)
      | some sink ↦ forward r w sink pkt
    ]
  ]
