-- ===== src/Relay/Server/Accounting.antt =====
-- relay.go: every packet is counted once.
use network_project.Net.{UdpAddr}
use network_project.Relay.Packet.{Packet}
use mathlib.Core.Path.{subst}
use network_project.Prelude.Assoc.{bytes_Eq}
use network_project.Relay.Server.Cases.{
  write_forward_cases, forward_cases, route_cases, handle_packet_cases, after_quota,
}
use network_project.Relay.Server.{
  Server, Stats, Datagram, maybe_sweep, draw_global, pin_source, draw_source, forward, route,
  handle_packet, inc, inc_wrapped,
}
use network_project.Prelude.{
  ℕ, ◌+◌, ◌%◌, ◌^◌, ◌≡◌, ◌∙◌, Bool, Option, none, some, arith, Bytes, length,
}

maybe_sweep-stats : (s : Server) (now : ℕ) → (maybe_sweep s now).stats ≡ s.stats
unfolding maybe_sweep
maybe_sweep-stats s now = ground arith

draw_global-stats : (s : Server) (size now : ℕ) → (draw_global s size now).0.stats ≡ s.stats
unfolding draw_global
draw_global-stats s size now = ground arith

pin_source-stats :
    (s : Server) (id : Bytes) (addr : UdpAddr) (now : ℕ)
    → (pin_source s id addr now).0.stats ≡ s.stats
unfolding pin_source
pin_source-stats s id addr now = ground arith

draw_source-stats :
    (s : Server) (key : Bytes) (size now : ℕ) → (draw_source s key size now).0.stats ≡ s.stats
unfolding draw_source
draw_source-stats s key size now = ground arith

-- the packets that met each of the four ends
abbrev pub ends : Stats → ℕ
ends t = t.forwarded + t.dropped + t.pinned_dropped + t.rate_limited

-- One end more, and `Forwarded` counts what was written.
abbrev pub CountsOnce : Stats → Server × Option Datagram → Type 0
CountsOnce t r =
    (ends r.0.stats % 2 ^ 64 ≡ (ends t + 1) % 2 ^ 64)
    × (r.0.stats.forwarded ≡ elim r.1 [ none ↦ t.forwarded | some d ↦ inc t.forwarded ])

forward-CountsOnce :
    (s : Server) (p : Packet) (now : ℕ) (sent : Bool) → CountsOnce s.stats (forward s p now sent)
forward-CountsOnce s p now sent =
    forward_cases (CountsOnce s.stats) s p now sent (λ e. (ground arith, ground arith))
      (ground arith, ground arith)
      λ dst e.
        write_forward_cases (CountsOnce s.stats) (after_quota s p now) p dst.addr sent
          (ground arith, ground arith) (λ fwd h. (ground arith, ground arith))

route-CountsOnce :
    (f : UdpAddr → Bytes) (s : Server) (p : Packet) (size : ℕ) (src : UdpAddr) (now : ℕ)
    (sent : Bool)
    → CountsOnce s.stats (route f s p size src now sent)
route-CountsOnce f s p size src now sent =
    let s1 = (draw_global s size now).0 in
    let s2 = (pin_source s1 p.src_id src now).0 in
    let s3 = (draw_source s2 (f src) size now).0 in
    let e1 = draw_global-stats s size now in
    let e2 = pin_source-stats s1 p.src_id src now ∙ e1 in
    let e3 = draw_source-stats s2 (f src) size now ∙ e2 in
    route_cases (CountsOnce s.stats) f s p size src now sent
      (ground (arith, e1), ground (arith, e1)) (λ h. (ground (arith, e2), ground (arith, e2)))
      (λ h. (ground (arith, e3), ground (arith, e3)))
      λ h.
        let (ended, written) = forward-CountsOnce (inc_wrapped s3) p now sent in
        (ground (arith, e3, ended), ground (arith, e3, written))

-- Whatever arrives, `handlePacket` counts the packet under exactly one of Forwarded, Dropped,
-- PinnedDropped and RateLimited (modulo 2 ^ 64), and under Forwarded exactly if a datagram was
-- written.
pub handle_packet-CountsOnce :
    (f : UdpAddr → Bytes) (s : Server) (pkt : Bytes) (src : UdpAddr) (now : ℕ) (sent : Bool)
    → CountsOnce s.stats (handle_packet f s pkt src now sent)
handle_packet-CountsOnce f s pkt src now sent =
    handle_packet_cases (CountsOnce s.stats) f s pkt src now sent (ground arith, ground arith)
      λ p h.
        subst (λ t. CountsOnce t (route f (maybe_sweep s now) p (length pkt) src now sent))
          (maybe_sweep-stats s now)
          (route-CountsOnce f (maybe_sweep s now) p (length pkt) src now sent)
