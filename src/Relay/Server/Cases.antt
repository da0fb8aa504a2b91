-- ===== src/Relay/Server/Cases.antt =====
-- relay.go: the ends that a packet can meet, one rule for each stage of `handlePacket`.
use network_project.Net.{UdpAddr}
use network_project.Relay.Packet.{Packet, parse_packet, wrap_packet}
use network_project.Relay.Budget
use network_project.Prelude.{Result-cases}
use network_project.Prelude.Assoc.{lookup, insert, bytes_Eq}
use network_project.Relay.Server.{
  addr_equal, Server, Pin, Datagram, maybe_sweep, draw_global, pin_source, draw_source,
  write_forward, forward, route, handle_packet, inc_dropped, inc_forwarded, inc_wrapped,
  inc_rate_limited, inc_pinned_dropped,
}
use network_project.Prelude.{
  ℕ, ◌-◌, ◌≤◌, ◌<◌, ◌≡◌, ◌⊎◌, inl, inr, Bool, true, false, Option, none, some, Bytes, length, ltb,
  Bool-cases, Option-cases, ok, ltb→lt, ltb→ge,
}

pub write_forward_cases {ℓ} :
    (P : Server × Option Datagram → Type ℓ) (s : Server) (p : Packet) (dst : UdpAddr) (sent : Bool)
    → P (inc_dropped s, none)
    → ((fwd : Bytes)
        → wrap_packet p.src_id p.dst_id p.frame ≡ ok fwd
        → P (inc_forwarded s, some (record { dst = dst; payload = fwd })))
    → P (write_forward s p dst sent)
unfolding write_forward
write_forward_cases P s p dst true dropped on =
    elim (Result-cases (wrap_packet p.src_id p.dst_id p.frame)) [
      | inr (e, h) ↦ rw (h, write_forward) dropped
      | inl (fwd, h) ↦ rw (h, write_forward) (on fwd h)
    ]
write_forward_cases P s p dst false dropped on =
    elim (Result-cases (wrap_packet p.src_id p.dst_id p.frame)) [
      | inr (e, h) ↦ rw (h, write_forward) dropped
      | inl (fwd, h) ↦ rw (h, write_forward) dropped
    ]

abbrev pub after_quota : Server → Packet → ℕ → Server
after_quota s p now = record s {
  name_bytes = (Budget.take s.name_bytes p.dst_id (length p.frame) s.cfg.name_quota_bytes now).0;
}

pub forward_cases {ℓ} :
    (P : Server × Option Datagram → Type ℓ) (s : Server) (p : Packet) (now : ℕ) (sent : Bool)
    → (lookup p.dst_id s.pins ≡ none → P (inc_dropped s, none))
    → P (inc_rate_limited (after_quota s p now), none)
    → ((dst : Pin)
        → lookup p.dst_id s.pins ≡ some dst
        → P (write_forward (after_quota s p now) p dst.addr sent))
    → P (forward s p now sent)
unfolding forward
forward_cases P s p now sent unknown over on = elim (Option-cases (lookup p.dst_id s.pins)) [
  | inl e ↦ rw (e, forward) (unknown e)
  | inr (dst, e) ↦
      elim (Bool-cases
        (Budget.take s.name_bytes p.dst_id (length p.frame) s.cfg.name_quota_bytes now).1) [
          | inl fits ↦ rw (e, fits, forward) (on dst e)
          | inr out ↦ rw (e, out, forward) over
        ]
]

pub route_cases {ℓ} :
    (P : Server × Option Datagram → Type ℓ) (f : UdpAddr → Bytes) (s : Server) (p : Packet)
    (size : ℕ) (src : UdpAddr) (now : ℕ) (sent : Bool)
    → let s1 = (draw_global s size now).0 in
      let s2 = (pin_source s1 p.src_id src now).0 in
      let s3 = (draw_source s2 (f src) size now).0 in
      P (inc_rate_limited s1, none)
      → ((pin_source s1 p.src_id src now).1 ≡ false → P (inc_pinned_dropped s2, none))
      → ((pin_source s1 p.src_id src now).1 ≡ true → P (inc_rate_limited s3, none))
      → ((pin_source s1 p.src_id src now).1 ≡ true → P (forward (inc_wrapped s3) p now sent))
      → P (route f s p size src now sent)
unfolding route
route_cases P f s p size src now sent over1 hijack over3 on =
    let r1 = draw_global s size now in
    let r2 = pin_source r1.0 p.src_id src now in
    elim (Bool-cases r1.1) [
      | inr out ↦ rw (out, route) over1
      | inl within ↦ elim (Bool-cases r2.1) [
        | inr bad ↦ rw (within, bad, route) (hijack bad)
        | inl good ↦ elim (Bool-cases (draw_source r2.0 (f src) size now).1) [
          | inr out ↦ rw (within, good, out, route) (over3 good)
          | inl allowed ↦ rw (within, good, allowed, route) (on good)
        ]
      ]
    ]

pub handle_packet_cases {ℓ} :
    (P : Server × Option Datagram → Type ℓ) (f : UdpAddr → Bytes) (s : Server) (pkt : Bytes)
    (src : UdpAddr) (now : ℕ) (sent : Bool)
    → P (inc_dropped s, none)
    → ((p : Packet)
        → parse_packet pkt ≡ ok p
        → P (route f (maybe_sweep s now) p (length pkt) src now sent))
    → P (handle_packet f s pkt src now sent)
unfolding handle_packet
handle_packet_cases P f s pkt src now sent malformed on = elim (Result-cases (parse_packet pkt)) [
  | inr (e, h) ↦ rw (h, handle_packet) malformed
  | inl (p, h) ↦ rw (h, handle_packet) (on p h)
]

abbrev pub with_pin : Server → Bytes → UdpAddr → ℕ → Server
with_pin s id addr now = record s {
  pins = insert id (record { addr = addr; last_seen = now }) s.pins;
}

-- A name is unclaimed, or its pin has lapsed.
abbrev pub IsFree : Server → Bytes → ℕ → Type 0
IsFree s id now =
    (lookup id s.pins ≡ none)
    ⊎ ((p : Pin) × (lookup id s.pins ≡ some p) × (s.cfg.pin_grace < now - p.last_seen))

pub pin_source_cases {ℓ} :
    (P : Server × Bool → Type ℓ) (s : Server) (id : Bytes) (src : UdpAddr) (now : ℕ)
    → (IsFree s id now → P (with_pin s id src now, true))
    → ((p : Pin)
        → lookup id s.pins ≡ some p
        → addr_equal p.addr src ≡ true
        → P (with_pin s id p.addr now, true))
    → ((p : Pin)
        → lookup id s.pins ≡ some p
        → addr_equal p.addr src ≡ false
        → now - p.last_seen ≤ s.cfg.pin_grace
        → P (s, false))
    → P (pin_source s id src now)
unfolding pin_source
pin_source_cases P s id src now claim renew refuse = elim (Option-cases (lookup id s.pins)) [
  | inl e ↦ rw (e, pin_source) (claim (inl e))
  | inr (p, e) ↦ elim (Bool-cases (addr_equal p.addr src)) [
    | inl here ↦ rw (e, here, pin_source) (renew p e here)
    | inr away ↦ elim (Bool-cases (ltb s.cfg.pin_grace (now - p.last_seen))) [
      | inl lapsed ↦ rw (e, away, lapsed, pin_source) (claim (inr (p, e, ltb→lt _ _ lapsed)))
      | inr fresh ↦ rw (e, away, fresh, pin_source) (refuse p e away (ltb→ge _ _ fresh))
    ]
  ]
]
