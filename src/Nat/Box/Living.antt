-- ===== src/Nat/Box/Living.antt =====
-- nat.go: a box that is not symmetric, from the datagram that uses its mapping to the one it admits.
use network_project.Prelude.{
  ℕ, ◌≡◌, ap, ◌∙◌, inl, inr, Bool, true, false, List, [], ◌∷◌, Option, some, arith, Bytes, ◌==◌,
  Bool-cases, if-rule,
}
use network_project.Net.{UdpAddr}
use network_project.Prelude.Assoc.{bytes_Eq, lookup}
use network_project.Nat.Box.{
  Behavior, is_symmetric, is_restricted, key_Eq, Box, cleanup, read_stats,
}
use network_project.Nat.Box.Traffic.{ip_key, handle_outbound, handle_inbound, lookup_inbound}
use network_project.Nat.Box.Admission.{requested, History, History-Inv}
use network_project.Nat.Box.Fixed.{Maps-lookup}
use network_project.Nat.Box.Handling.{handle_outbound-Handled, handle_inbound-Same, History-Single}
use network_project.Nat.Box.Kept.{
  last_use, InTime, Kept, Kept-Same, InTime-lives, reclaim_expired-Kept, Kept-Handled, Kept-first,
}

module _ (ip_string : Bytes → Bytes) (port_of : Option ℕ → ℕ)
    (addr_key addr_string : UdpAddr → Bytes) (resolve : Bytes → Option UdpAddr) where
  -- A box whose private host has asked for `dst`, with the time at which the mapping was last used, and
  -- what happened to the box since then while the mapping lived.
  pub data Living (behavior : Behavior) (dst : UdpAddr) : ℕ → Box → Type 0 where
    asked_for :
        (sent : List UdpAddr) (b : Box) (write_fails : ℕ → UdpAddr → Bytes → Bool) (now : ℕ)
        (bound : Option ℕ) (pkt : Bytes) (src : UdpAddr)
        → History ip_string port_of addr_key addr_string resolve behavior sent b
        → requested ip_string port_of addr_key addr_string resolve b pkt src ≡ dst ∷ []
        → Living behavior dst now
            (handle_outbound ip_string port_of addr_key resolve write_fails b now bound pkt src).0
    then_out :
        (seen : ℕ) (b : Box) (write_fails : ℕ → UdpAddr → Bytes → Bool) (now : ℕ) (bound : Option ℕ)
        (pkt : Bytes) (src : UdpAddr)
        → Living behavior dst seen b
        → InTime b seen now
        → Living behavior dst
            (last_use (requested ip_string port_of addr_key addr_string resolve b pkt src) seen now)
            (handle_outbound ip_string port_of addr_key resolve write_fails b now bound pkt src).0
    then_in :
        (seen : ℕ) (b : Box) (write_fails : ℕ → UdpAddr → Bytes → Bool) (now sock : ℕ) (pkt : Bytes)
        (src : UdpAddr)
        → Living behavior dst seen b
        → Living behavior dst seen
            (handle_inbound ip_string addr_string write_fails b now sock pkt src).0
    then_cleaned :
        (seen : ℕ) (b : Box) (now : ℕ)
        → Living behavior dst seen b
        → InTime b seen now
        → Living behavior dst seen (cleanup b now)
    then_read :
        (seen : ℕ) (b : Box) (now : ℕ)
        → Living behavior dst seen b
        → InTime b seen now
        → Living behavior dst seen (read_stats b now).0

  Living-Kept :
      (behavior : Behavior) (dst : UdpAddr) (seen : ℕ) (b : Box)
      → is_symmetric behavior ≡ false
      → Living behavior dst seen b
      → Kept ip_string port_of addr_key addr_string resolve behavior dst seen b
  unfolding cleanup read_stats
  Living-Kept behavior dst _ _ k (asked_for sent b write_fails now bound pkt src past q) =
      let v = History-Inv ip_string port_of addr_key addr_string resolve behavior sent b past in
      let one =
        History-Single ip_string port_of addr_key addr_string resolve behavior sent b k past in
      Kept-first ip_string port_of addr_key addr_string resolve behavior dst b
        (handle_outbound ip_string port_of addr_key resolve write_fails b now bound pkt src).0 now
        bound _ v.kind k one
        (handle_outbound-Handled ip_string port_of addr_key addr_string resolve write_fails b now
          bound pkt src)
        q
  Living-Kept behavior dst _ _ k (then_out seen b write_fails now bound pkt src past h) =
      Kept-Handled ip_string port_of addr_key addr_string resolve behavior dst seen b
        (handle_outbound ip_string port_of addr_key resolve write_fails b now bound pkt src).0 now
        bound _ k h
        (handle_outbound-Handled ip_string port_of addr_key addr_string resolve write_fails b now
          bound pkt src)
        (Living-Kept behavior dst seen b k past)
  Living-Kept behavior dst _ _ k (then_in seen b write_fails now sock pkt src past) =
      Kept-Same ip_string port_of addr_key addr_string resolve behavior dst seen
        (handle_inbound ip_string addr_string write_fails b now sock pkt src).0 b
        (handle_inbound-Same ip_string port_of addr_key addr_string resolve write_fails b now sock
          pkt src)
        (Living-Kept behavior dst seen b k past)
  Living-Kept behavior dst _ _ k (then_cleaned seen b now past h) =
      let v = Living-Kept behavior dst seen b k past in
      if-rule (Kept ip_string port_of addr_key addr_string resolve behavior dst seen)
        (b.cfg.mapping_ttl == 0) _ _ v
        (reclaim_expired-Kept ip_string port_of addr_key addr_string resolve behavior dst seen b now
          h v)
  Living-Kept behavior dst _ _ k (then_read seen b now past h) =
      reclaim_expired-Kept ip_string port_of addr_key addr_string resolve behavior dst seen b now h
        (Living-Kept behavior dst seen b k past)

  -- On a box that is not symmetric, a destination that the private host has asked for is admitted, from
  -- any of its ports and on any socket, for as long as the mapping lives: forever without a TTL, and up
  -- to the TTL after its last use with one. It stays so through any later datagrams, to other
  -- destinations and from any source, cleanups and reads of the counters while the mapping lives.
  pub Living-admits :
      (behavior : Behavior) (dst : UdpAddr) (seen : ℕ) (b : Box) (later sock : ℕ) (src : UdpAddr)
      → is_symmetric behavior ≡ false
      → Living behavior dst seen b
      → InTime b seen later
      → src.ip ≡ dst.ip
      → lookup_inbound ip_string b later sock src ≡ true
  unfolding lookup_inbound
  Living-admits behavior dst seen b later sock src k past h same =
      let v = Living-Kept behavior dst seen b k past in
      let fixed = ap is_symmetric v.kind ∙ k in
      let found = Maps-lookup b v.entry v.maps in
      let lives =
        InTime-lives ip_string port_of addr_key addr_string resolve v.entry b seen later v.last h in
      elim (Bool-cases (is_restricted behavior)) [
        | inr r ↦ ground (arith, fixed, found, lives, ap is_restricted v.kind ∙ r)
        | inl r ↦
            let contact : lookup (ip_key ip_string src.ip) v.entry.contact_ip ≡ some true =
              ap (λ i. lookup (ip_key ip_string i) v.entry.contact_ip) same ∙ v.contact r in
            ground (arith, fixed, found, lives, ap is_restricted v.kind ∙ r, contact)
      ]
