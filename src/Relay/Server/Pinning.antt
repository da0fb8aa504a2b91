-- ===== src/Relay/Server/Pinning.antt =====
-- relay.go: a name stays with the address that claimed it, and packets go to the address of their name.
use mathlib.Core.Path.{subst}
use network_project.Net.{UdpAddr}
use network_project.Relay.Packet.{Packet, parse_packet}
use network_project.Relay.Packet.RoundTrip.{parse_packet-wrap_packet}
use network_project.Prelude.Assoc.{lookup, lookup-insert, lookup-sweep, bytes_Eq}
use network_project.Relay.Server.Cases.{
  pin_source_cases, with_pin, IsFree, write_forward_cases, forward_cases, route_cases,
  handle_packet_cases, after_quota,
}
use network_project.Relay.Server.{
  Server, Pin, Datagram, maybe_sweep, draw_global, pin_source, draw_source, forward, route,
  handle_packet, inc_wrapped, addr_equal, is_idle,
}
use network_project.Prelude.{
  ℕ, ◌-◌, ◌≤◌, ◌≡◌, refl, sym, ap, ◌∙◌, ◌⊎◌, inl, inr, Bool, true, Option, none, some, arith, Bytes,
  length, Bool-cases, ok, equal, equal_iff, equal_refl,
}

draw_global-pins :
    (s : Server) (size now : ℕ)
    → ((draw_global s size now).0.pins ≡ s.pins) × ((draw_global s size now).0.cfg ≡ s.cfg)
unfolding draw_global
draw_global-pins s size now = ground arith

draw_source-pins :
    (s : Server) (key : Bytes) (size now : ℕ) → (draw_source s key size now).0.pins ≡ s.pins
unfolding draw_source
draw_source-pins s key size now = ground arith

forward-pins :
    (s : Server) (p : Packet) (now : ℕ) (sent : Bool) → (forward s p now sent).0.pins ≡ s.pins
forward-pins s p now sent =
    forward_cases (λ r. r.0.pins ≡ s.pins) s p now sent (λ e. refl) refl
      λ dst e.
        write_forward_cases (λ r. r.0.pins ≡ s.pins) (after_quota s p now) p dst.addr sent refl
          (λ fwd h. refl)

maybe_sweep-cfg : (s : Server) (now : ℕ) → (maybe_sweep s now).cfg ≡ s.cfg
unfolding maybe_sweep
maybe_sweep-cfg s now = ground arith

-- The sweep leaves a fresh pin where it is.
maybe_sweep-pin :
    (s : Server) (now : ℕ) (k : Bytes) (pin : Pin)
    → lookup k s.pins ≡ some pin
    → now - pin.last_seen ≤ s.cfg.pin_grace
    → lookup k (maybe_sweep s now).pins ≡ some pin
unfolding maybe_sweep
maybe_sweep-pin s now k pin e fresh =
    ground (arith, lookup-sweep (is_idle s.cfg.pin_grace now) k pin s.pins e)

-- The name `k` is still held from where `pin` has it, last seen no earlier.
abbrev pub Holds : Bytes → Pin → ℕ → Server → Type 0
Holds k pin now s =
    (pin' : Pin) × (lookup k s.pins ≡ some pin')
    × (pin'.addr ≡ pin.addr)
    × ((pin'.last_seen ≡ pin.last_seen) ⊎ (pin'.last_seen ≡ now))

Holds-insert :
    (s : Server) (id : Bytes) (a : UdpAddr) (now : ℕ) (k : Bytes) (pin : Pin)
    → lookup k s.pins ≡ some pin
    → (equal id k ≡ true → a ≡ pin.addr)
    → Holds k pin now (with_pin s id a now)
Holds-insert s id a now k pin e at_home = elim (Bool-cases (equal id k)) [
  | inr other ↦ (pin, lookup-insert id k _ s.pins ∙ rw other e, refl, inl refl)
  | inl same ↦ (
    record { addr = a; last_seen = now },
    lookup-insert id k _ s.pins ∙ rw same,
    at_home same,
    inr refl,
  )
]

pin_source-Holds :
    (s : Server) (id : Bytes) (src : UdpAddr) (now : ℕ) (k : Bytes) (pin : Pin)
    → lookup k s.pins ≡ some pin
    → now - pin.last_seen ≤ s.cfg.pin_grace
    → Holds k pin now (pin_source s id src now).0
pin_source-Holds s id src now k pin e fresh =
    pin_source_cases (λ r. Holds k pin now r.0) s id src now
      (λ free.
        Holds-insert s id src now k pin e (λ same. absurd (taken free ((equal_iff id k).0 same))))
      (λ p h here.
        Holds-insert s id p.addr now k pin e (λ same. found p h ((equal_iff id k).0 same)))
      (λ p h away young. (pin, e, refl, inl refl))
  where
    found : (p : Pin) → lookup id s.pins ≡ some p → id ≡ k → p.addr ≡ pin.addr
    found p h same =
        let own : lookup k s.pins ≡ some p = ap (λ (j : Bytes). lookup j s.pins) (sym same) ∙ h in
        ground (arith, e, own)

    taken : IsFree s id now → id ≡ k → ⊥
    taken (inl h) same =
        let own : lookup k s.pins ≡ none = ap (λ (j : Bytes). lookup j s.pins) (sym same) ∙ h in
        ground (arith, e, own)
    taken (inr (p, h, lapsed)) same =
        let own : lookup k s.pins ≡ some p = ap (λ (j : Bytes). lookup j s.pins) (sym same) ∙ h in
        ground (arith, e, own)

Holds-pins :
    (k : Bytes) (pin : Pin) (now : ℕ) (s t : Server)
    → t.pins ≡ s.pins
    → Holds k pin now s
    → Holds k pin now t
Holds-pins k pin now s t e (pin', l, a, n) = (pin', ap (lookup k) e ∙ l, a, n)

route-Holds :
    (f : UdpAddr → Bytes) (s : Server) (p : Packet) (size : ℕ) (src : UdpAddr) (now : ℕ)
    (sent : Bool) (k : Bytes) (pin : Pin)
    → lookup k s.pins ≡ some pin
    → now - pin.last_seen ≤ s.cfg.pin_grace
    → Holds k pin now (route f s p size src now sent).0
route-Holds f s p size src now sent k pin e fresh =
    let s1 = (draw_global s size now).0 in
    let s2 = (pin_source s1 p.src_id src now).0 in
    let s3 = (draw_source s2 (f src) size now).0 in
    let (p1, c1) = draw_global-pins s size now in
    let held = pin_source-Holds s1 p.src_id src now k pin (ap (lookup k) p1 ∙ e) (rw c1 fresh) in
    let p3 = draw_source-pins s2 (f src) size now in
    route_cases (λ r. Holds k pin now r.0) f s p size src now sent
      (Holds-pins k pin now s s1 p1 (pin, e, refl, inl refl)) (λ h. held)
      (λ h. Holds-pins k pin now s2 s3 p3 held)
      λ h.
        Holds-pins k pin now s2 (forward (inc_wrapped s3) p now sent).0
          (forward-pins (inc_wrapped s3) p now sent ∙ p3) held

-- While the pin of a name is fresh, no packet from anywhere moves the name to another address, sweeps it
-- away or ages it: after `handlePacket` the name is still held from the same address.
pub handle_packet-Holds :
    (f : UdpAddr → Bytes) (s : Server) (pkt : Bytes) (src : UdpAddr) (now : ℕ) (sent : Bool)
    (k : Bytes) (pin : Pin)
    → lookup k s.pins ≡ some pin
    → now - pin.last_seen ≤ s.cfg.pin_grace
    → Holds k pin now (handle_packet f s pkt src now sent).0
handle_packet-Holds f s pkt src now sent k pin e fresh =
    handle_packet_cases (λ r. Holds k pin now r.0) f s pkt src now sent (pin, e, refl, inl refl)
      λ p h.
        route-Holds f (maybe_sweep s now) p (length pkt) src now sent k pin
          (maybe_sweep-pin s now k pin e fresh) (rw (maybe_sweep-cfg s now) fresh)

-- What a written datagram is: the same packet again, from a name held at the sender's address, sent to
-- the address that holds the destination's name.
abbrev pub IsDelivery : Packet → UdpAddr → ℕ → Server × Option Datagram → Type 0
IsDelivery p src now (s, none) = Unit {0}
IsDelivery p src now (s, some d) =
    (parse_packet d.payload ≡ ok p)
    × ((dst : Pin) × (lookup p.dst_id s.pins ≡ some dst) × (d.dst ≡ dst.addr))
    × ((q : Pin) × (lookup p.src_id s.pins ≡ some q)
        × ((q.addr ≡ src) ⊎ (addr_equal q.addr src ≡ true)))

pin_source-source :
    (s : Server) (id : Bytes) (src : UdpAddr) (now : ℕ)
    → (pin_source s id src now).1 ≡ true
    → (q : Pin) × (lookup id (pin_source s id src now).0.pins ≡ some q)
      × ((q.addr ≡ src) ⊎ (addr_equal q.addr src ≡ true))
pin_source-source s id src now =
    pin_source_cases
      (λ r.
        r.1 ≡ true
        → (q : Pin) × (lookup id r.0.pins ≡ some q)
          × ((q.addr ≡ src) ⊎ (addr_equal q.addr src ≡ true)))
      s id src now
      (λ free h. (
        record { addr = src; last_seen = now },
        lookup-insert id id _ s.pins ∙ rw (equal_refl id),
        inl refl,
      ))
      (λ p e here h. (
        record { addr = p.addr; last_seen = now },
        lookup-insert id id _ s.pins ∙ rw (equal_refl id),
        inr here,
      ))
      (λ p e away young h. cc)

forward-IsDelivery :
    (s : Server) (p : Packet) (src : UdpAddr) (now : ℕ) (sent : Bool)
    → ((q : Pin) × (lookup p.src_id s.pins ≡ some q)
        × ((q.addr ≡ src) ⊎ (addr_equal q.addr src ≡ true)))
    → IsDelivery p src now (forward s p now sent)
forward-IsDelivery s p src now sent held =
    forward_cases (IsDelivery p src now) s p now sent (λ e. tt) tt
      λ dst e.
        write_forward_cases (IsDelivery p src now) (after_quota s p now) p dst.addr sent tt
          λ fwd h. (parse_packet-wrap_packet p.src_id p.dst_id p.frame fwd h, (dst, e, refl), held)

-- A datagram that `handlePacket` writes is the packet that it parsed, written anew, goes to the address
-- that then holds the destination's name, and comes from a name held at the sender's address.
pub handle_packet-IsDelivery :
    (f : UdpAddr → Bytes) (s : Server) (pkt : Bytes) (src : UdpAddr) (now : ℕ) (sent : Bool)
    → (p : Packet) → parse_packet pkt ≡ ok p
    → IsDelivery p src now (handle_packet f s pkt src now sent)
handle_packet-IsDelivery f s pkt src now sent p parsed =
    handle_packet_cases (IsDelivery p src now) f s pkt src now sent tt λ q h.
      let same : q ≡ p = ground (arith, h, parsed) in
      let t = maybe_sweep s now in
      let s1 = (draw_global t (length pkt) now).0 in
      let s2 = (pin_source s1 q.src_id src now).0 in
      let s3 = (draw_source s2 (f src) (length pkt) now).0 in
      let p3 = draw_source-pins s2 (f src) (length pkt) now in
      subst (λ z. IsDelivery z src now (route f t q (length pkt) src now sent)) same
        (route_cases (IsDelivery q src now) f t q (length pkt) src now sent tt (λ e. tt) (λ e. tt)
          λ e.
            let (pin, l, here) = pin_source-source s1 q.src_id src now e in
            forward-IsDelivery (inc_wrapped s3) q src now sent
              (pin, ap (lookup q.src_id) p3 ∙ l, here))
