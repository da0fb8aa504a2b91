-- ===== src/Nat/Box/Counting.antt =====
-- nat.go: how the box counts.
use network_project.Prelude.{
  ℕ, ◌+◌, ◌%◌, ◌^◌, ◌≡◌, refl, ap, inl, inr, Bool, Option, none, some, arith, Bytes, Bool-cases,
  if-rule, Option-cases, equal, Result-cases,
}
use network_project.Net.{UdpAddr}
use network_project.Nat.Envelope.{Outbound, unwrap_outbound}
use network_project.Prelude.Assoc.{bytes_Eq, lookup}
use network_project.Nat.Box.{key_Eq, Stats, Box, last_seen_expired, reclaim}
use network_project.Nat.Box.Traffic.{
  flow_key, open_mapping, use_mapping, outbound_socket, forward_outbound, handle_outbound,
}

-- A datagram that was written counts as outbound, and one that was not as dropped; the counters go up
-- by one modulo 2^64, and the others stay.
abbrev pub CountsOnce : Stats → Box × Option (ℕ × UdpAddr × Bytes) → Type 0
CountsOnce s (b, some _) = b.stats ≡ record s { outbound = (s.outbound + 1) % 2 ^ 64 }
CountsOnce s (b, none) = b.stats ≡ record s { dropped = (s.dropped + 1) % 2 ^ 64 }

module _ (ip_string : Bytes → Bytes) (port_of : Option ℕ → ℕ) where
  open_mapping-stats :
      (b : Box) (now : ℕ) (bound : Option ℕ) (dst : UdpAddr)
      → (open_mapping ip_string port_of b now bound dst).0.stats ≡ b.stats
  unfolding open_mapping
  open_mapping-stats b now none dst = ground arith
  open_mapping-stats b now (some c) dst = ground arith

  outbound_socket-stats :
      (b : Box) (now : ℕ) (bound : Option ℕ) (dst : UdpAddr)
      → (outbound_socket ip_string port_of b now bound dst).0.stats ≡ b.stats
  unfolding outbound_socket use_mapping reclaim
  outbound_socket-stats b now bound dst =
      let k = flow_key ip_string b.cfg.behavior dst in
      elim (Option-cases (lookup k b.mappings)) [
        | inl e ↦ rw (e, outbound_socket) (open_mapping-stats b now bound dst)
        | inr (m, e) ↦
            rw (e, outbound_socket)
              (if-rule (λ (r : Box × Option ℕ). r.0.stats ≡ b.stats)
                (last_seen_expired m now b.cfg.mapping_ttl) _ _
                (open_mapping-stats (reclaim b k m) now bound dst) refl)
      ]

  forward_outbound-stats :
      (addr_key : UdpAddr → Bytes) (resolve : Bytes → Option UdpAddr)
      (write_fails : ℕ → UdpAddr → Bytes → Bool) (b : Box) (now : ℕ) (bound : Option ℕ)
      (o : Outbound)
      → CountsOnce b.stats
          (forward_outbound ip_string port_of addr_key resolve write_fails b now bound o)
  unfolding forward_outbound
  forward_outbound-stats addr_key resolve write_fails b now bound o =
      let next = outbound_socket ip_string port_of b now bound o.dst in
      let same = outbound_socket-stats b now bound o.dst in
      let drop_one = ap (λ (s : Stats). record s { dropped = (s.dropped + 1) % 2 ^ 64 }) same in
      let count_one = ap (λ (s : Stats). record s { outbound = (s.outbound + 1) % 2 ^ 64 }) same in
      elim (Option-cases next.1) [
        | inl e ↦ rw (e, forward_outbound) drop_one
        | inr (c, e) ↦
            rw (e, forward_outbound)
              (if-rule (CountsOnce b.stats) (write_fails c o.dst o.frame) _ _ drop_one count_one)
      ]

  -- A datagram on the inside door counts once: as outbound exactly if one is written outside for it, and
  -- as dropped if not; the other counters stay.
  pub handle_outbound-CountsOnce :
      (addr_key : UdpAddr → Bytes) (resolve : Bytes → Option UdpAddr)
      (write_fails : ℕ → UdpAddr → Bytes → Bool) (b : Box) (now : ℕ) (bound : Option ℕ)
      (pkt : Bytes) (src : UdpAddr)
      → CountsOnce b.stats
          (handle_outbound ip_string port_of addr_key resolve write_fails b now bound pkt src)
  unfolding handle_outbound
  handle_outbound-CountsOnce addr_key resolve write_fails b now bound pkt src =
      elim (Bool-cases (equal (addr_key src) b.private_host_key)) [
        | inr other ↦ rw (other, handle_outbound) refl
        | inl here ↦ elim (Result-cases (unwrap_outbound resolve pkt)) [
          | inr (x, e) ↦ rw (here, handle_outbound) (rw e refl)
          | inl (o, e) ↦
              rw (here, handle_outbound)
                (rw e (forward_outbound-stats addr_key resolve write_fails b now bound o))
        ]
      ]
