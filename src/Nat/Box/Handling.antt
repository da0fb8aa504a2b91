-- ===== src/Nat/Box/Handling.antt =====
-- nat.go: what the paths of the box do to its mappings; a box that is not symmetric has one at most.
use network_project.Prelude.{
  ℕ, ◌≡◌, refl, sym, ap, ◌∙◌, inl, inr, Bool, false, not, List, [], ◌∷◌, Option, Bytes, ◌==◌,
  Bool-cases, if-rule, Option-cases, equal, Result-cases,
}
use mathlib.Core.Path.{subst}
use network_project.Net.{UdpAddr}
use network_project.Nat.Envelope.{Outbound, wrap_inbound, unwrap_outbound}
use network_project.Prelude.Assoc.{bytes_Eq}
use network_project.Nat.Box.{
  Behavior, is_symmetric, key_Eq, Box, last_seen_expired, reclaim_expired, cleanup, read_stats,
  close, new_box,
}
use network_project.Nat.Box.Traffic.{
  outbound_socket, forward_outbound, handle_outbound, handle_inbound, lookup_inbound,
}
use network_project.Nat.Box.Admission.{
  requested, History, opened, went_out, came_in, cleaned, asked, ended, History-Inv,
}
use network_project.Nat.Box.Fixed.{
  Single, reclaim-empty, reclaim_expired-Maps, Socketed, anew, again, outbound_socket-Socketed,
}

-- Both boxes have the same mappings and the same configuration.
abbrev pub Same : Box → Box → Type 0
Same a b = (a.mappings ≡ b.mappings) × (a.cfg ≡ b.cfg)

module _ (ip_string : Bytes → Bytes) (port_of : Option ℕ → ℕ)
    (addr_key addr_string : UdpAddr → Bytes) (resolve : Bytes → Option UdpAddr) where
  forward_outbound-Same :
      (write_fails : ℕ → UdpAddr → Bytes → Bool) (b : Box) (now : ℕ) (bound : Option ℕ)
      (o : Outbound)
      → Same
          (forward_outbound ip_string port_of addr_key resolve write_fails b now bound o).0
          (outbound_socket ip_string port_of b now bound o.dst).0
  unfolding forward_outbound
  forward_outbound-Same write_fails b now bound o =
      let next = outbound_socket ip_string port_of b now bound o.dst in
      elim (Option-cases next.1) [
        | inl e ↦ rw (e, forward_outbound) (refl, refl)
        | inr (c, e) ↦
            rw (e, forward_outbound)
              (if-rule (λ (r : Box × Option (ℕ × UdpAddr × Bytes)). Same r.0 next.0)
                (write_fails c o.dst o.frame) _ _ (refl, refl) (refl, refl))
      ]

  -- What a datagram on the inside door does to the mappings.
  pub data Handled (b b' : Box) (now : ℕ) (bound : Option ℕ) : List UdpAddr → Type 0 where
    ignored : Same b' b → Handled b b' now bound []
    used :
        (dst : UdpAddr)
        → Same b' (outbound_socket ip_string port_of b now bound dst).0
        → Handled b b' now bound (dst ∷ [])

  pub handle_outbound-Handled :
      (write_fails : ℕ → UdpAddr → Bytes → Bool) (b : Box) (now : ℕ) (bound : Option ℕ)
      (pkt : Bytes) (src : UdpAddr)
      → Handled b
          (handle_outbound ip_string port_of addr_key resolve write_fails b now bound pkt src).0
          now
          bound
          (requested ip_string port_of addr_key addr_string resolve b pkt src)
  unfolding handle_outbound requested
  handle_outbound-Handled write_fails b now bound pkt src =
      elim (Bool-cases (equal (addr_key src) b.private_host_key)) [
        | inr other ↦ rw (other, handle_outbound, requested) (ignored (refl, refl))
        | inl here ↦ elim (Result-cases (unwrap_outbound resolve pkt)) [
          | inr (x, e) ↦ rw (here, handle_outbound, requested) (rw e (ignored (refl, refl)))
          | inl (o, e) ↦
              rw (here, handle_outbound, requested)
                (rw e (used o.dst (forward_outbound-Same write_fails b now bound o)))
        ]
      ]

  pub handle_inbound-Same :
      (write_fails : ℕ → UdpAddr → Bytes → Bool) (b : Box) (now sock : ℕ) (pkt : Bytes)
      (src : UdpAddr)
      → Same (handle_inbound ip_string addr_string write_fails b now sock pkt src).0 b
  unfolding handle_inbound
  handle_inbound-Same write_fails b now sock pkt src =
      let Good = λ (r : Box × Option (ℕ × UdpAddr × Bytes)). Same r.0 b in
      if-rule Good (not (lookup_inbound ip_string b now sock src)) _ _ (refl, refl)
        (if-rule Good (write_fails sock b.cfg.private_host (wrap_inbound addr_string src pkt)) _ _
          (refl, refl) (refl, refl))

  Single-Same : (a b : Box) → Same a b → Single b → Single a
  Single-Same a b (m, _) (inl h) = inl (m ∙ h)
  Single-Same a b (m, _) (inr (e, h)) = inr (e, m ∙ h)

  Single-Socketed :
      (b b' : Box) (dst : UdpAddr) (now : ℕ) → Socketed ip_string port_of b dst now b' → Single b'
  Single-Socketed b b' dst now (anew h _) = inr (_, h)
  Single-Socketed b b' dst now (again e h _) = inr (_, h)

  Single-Handled :
      (b b' : Box) (now : ℕ) (bound : Option ℕ) (ds : List UdpAddr)
      → is_symmetric b.cfg.behavior ≡ false
      → Handled b b' now bound ds
      → Single b
      → Single b'
  Single-Handled b b' now bound _ k (ignored same) v = Single-Same b' b same v
  Single-Handled b b' now bound _ k (used dst same) v =
      let next = (outbound_socket ip_string port_of b now bound dst).0 in
      Single-Same b' next same (
        Single-Socketed b next dst now
          (outbound_socket-Socketed ip_string port_of b now bound dst k v))

  reclaim_expired-Single :
      (b : Box) (now : ℕ) → Single b → Single (reclaim_expired now b.mappings b)
  unfolding reclaim_expired
  reclaim_expired-Single b now (inl h) =
      subst (λ m. Single (reclaim_expired now m b)) (sym h) (inl h)
  reclaim_expired-Single b now (inr (e, h)) = rw (reclaim_expired-Maps b e now h) (
      if-rule Single (last_seen_expired e now b.cfg.mapping_ttl) _ _ (inl (reclaim-empty b e h))
        (inr (e, h)))

  pub History-Single :
      (behavior : Behavior) (sent : List UdpAddr) (b : Box)
      → is_symmetric behavior ≡ false
      → History ip_string port_of addr_key addr_string resolve behavior sent b
      → Single b
  unfolding new_box cleanup read_stats close
  History-Single behavior _ _ k (opened cfg fixed _) = inl refl
  History-Single behavior _ _ k (went_out sent b write_fails now bound pkt src h) =
      let v = History-Inv ip_string port_of addr_key addr_string resolve behavior sent b h in
      Single-Handled b
        (handle_outbound ip_string port_of addr_key resolve write_fails b now bound pkt src).0 now
        bound _ (ap is_symmetric v.kind ∙ k)
        (handle_outbound-Handled write_fails b now bound pkt src)
        (History-Single behavior sent b k h)
  History-Single behavior _ _ k (came_in sent b write_fails now sock pkt src h) =
      Single-Same (handle_inbound ip_string addr_string write_fails b now sock pkt src).0 b
        (handle_inbound-Same write_fails b now sock pkt src) (History-Single behavior sent b k h)
  History-Single behavior _ _ k (cleaned sent b now h) =
      let v = History-Single behavior sent b k h in
      if-rule Single (b.cfg.mapping_ttl == 0) _ _ v (reclaim_expired-Single b now v)
  History-Single behavior _ _ k (asked sent b now h) =
      reclaim_expired-Single b now (History-Single behavior sent b k h)
  History-Single behavior _ _ k (ended sent b h) =
      if-rule Single b.closed _ _ (History-Single behavior sent b k h) (inl refl)
