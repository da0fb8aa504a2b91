-- ===== src/Nat/Box/Kept.antt =====
-- nat.go: what stays true of a mapping while it lives.
use network_project.Prelude.{
  ℕ, ◌+◌, ◌≤◌, ◌≡◌, refl, ap, ◌∙◌, ◌⊎◌, true, false, List, [], ◌∷◌, Option, some, arith, Bytes,
  equal_iff,
}
use mathlib.Core.Path.{subst}
use network_project.Net.{UdpAddr}
use network_project.Prelude.Assoc.{bytes_Eq, lookup, lookup-insert}
use network_project.Nat.Box.{
  Behavior, is_symmetric, is_restricted, Config, key_Eq, MappingEntry, Box, last_seen_expired,
  reclaim_expired,
}
use network_project.Nat.Box.Traffic.{ip_key, refreshed, fresh_entry, outbound_socket}
use network_project.Nat.Box.Fixed.{
  Maps, Single, reclaim_expired-Maps, new_entry, Socketed, anew, again, outbound_socket-again,
  outbound_socket-Socketed,
}
use network_project.Nat.Box.Handling.{Same, Handled, ignored, used}

-- the time of the last use, after a datagram at `now` that asked for the destinations
abbrev pub last_use : List UdpAddr → ℕ → ℕ → ℕ
last_use [] seen now = seen
last_use (_ ∷ _) seen now = now

-- The mapping that was last used at `seen` lives at `now`: without a TTL it lives forever.
abbrev pub InTime : Box → ℕ → ℕ → Type 0
InTime b seen now = (b.cfg.mapping_ttl ≡ 0) ⊎ (now ≤ seen + b.cfg.mapping_ttl)

module _ (ip_string : Bytes → Bytes) (port_of : Option ℕ → ℕ)
    (addr_key addr_string : UdpAddr → Bytes) (resolve : Bytes → Option UdpAddr) where
  -- the one mapping, last used at `seen`, has `dst` among the contacts it keeps
  pub record Kept (behavior : Behavior) (dst : UdpAddr) (seen : ℕ) (b : Box) : Type 0 where
    pub kind : b.cfg.behavior ≡ behavior
    pub entry : MappingEntry
    pub maps : Maps entry b
    pub last : entry.last_seen ≡ seen
    pub contact :
        is_restricted behavior ≡ true
        → lookup (ip_key ip_string dst.ip) entry.contact_ip ≡ some true

  pub Kept-Same :
      (behavior : Behavior) (dst : UdpAddr) (seen : ℕ) (a b : Box)
      → Same a b
      → Kept behavior dst seen b
      → Kept behavior dst seen a
  Kept-Same behavior dst seen a b (m, c) v = record {
    kind = ap (λ (f : Config). f.behavior) c ∙ v.kind;
    entry = v.entry;
    maps = m ∙ v.maps;
    last = v.last;
    contact = v.contact;
  }

  pub InTime-lives :
      (e : MappingEntry) (b : Box) (seen now : ℕ)
      → e.last_seen ≡ seen
      → InTime b seen now
      → last_seen_expired e now b.cfg.mapping_ttl ≡ false
  unfolding last_seen_expired
  InTime-lives e b seen now l h = ground (arith, l, h)

  -- a use keeps the contacts and adds its own
  refreshed-contact :
      (behavior : Behavior) (e : MappingEntry) (dst d : UdpAddr) (now : ℕ)
      → is_restricted behavior ≡ true
      → lookup (ip_key ip_string dst.ip) e.contact_ip ≡ some true
      → lookup (ip_key ip_string dst.ip) (refreshed ip_string port_of behavior e d now).contact_ip
        ≡ some true
  unfolding refreshed
  refreshed-contact behavior e dst d now r h =
      let old = ip_key ip_string dst.ip in
      let new = ip_key ip_string d.ip in
      ground (
        arith,
        r,
        h,
        lookup-insert new old true e.contact_ip,
        lookup-insert old new true e.contact_ip,
      )

  Kept-again :
      (behavior : Behavior) (dst d : UdpAddr) (seen : ℕ) (b : Box) (now : ℕ) (bound : Option ℕ)
      → is_symmetric behavior ≡ false
      → InTime b seen now
      → Kept behavior dst seen b
      → Kept behavior dst now (outbound_socket ip_string port_of b now bound d).0
  unfolding refreshed
  Kept-again behavior dst d seen b now bound k h v =
      let live = InTime-lives v.entry b seen now v.last h in
      let (m, c) =
        outbound_socket-again ip_string port_of b now bound d v.entry (ap is_symmetric v.kind ∙ k)
          v.maps live in
      record {
        kind = ap (λ (f : Config). f.behavior) c ∙ v.kind;
        entry = refreshed ip_string port_of b.cfg.behavior v.entry d now;
        maps = m;
        last = refl;
        contact = λ r.
            refreshed-contact b.cfg.behavior v.entry dst d now (ap is_restricted v.kind ∙ r)
              (v.contact r);
      }

  Kept-Socketed :
      (behavior : Behavior) (dst : UdpAddr) (b b' : Box) (now : ℕ)
      → b.cfg.behavior ≡ behavior
      → is_symmetric behavior ≡ false
      → Socketed ip_string port_of b dst now b'
      → Kept behavior dst now b'
  unfolding refreshed fresh_entry lookup
  Kept-Socketed behavior dst b b' now kind k (anew m c) =
      let self = (equal_iff (ip_key ip_string dst.ip) (ip_key ip_string dst.ip)).1 refl in
      record {
        kind = ap (λ (f : Config). f.behavior) c ∙ kind;
        entry = new_entry ip_string port_of b dst now;
        maps = m;
        last = refl;
        contact = λ r. ground (arith, ap is_restricted kind ∙ r, ap is_symmetric kind ∙ k, self);
      }
  Kept-Socketed behavior dst b b' now kind k (again e m c) =
      let ip = ip_key ip_string dst.ip in
      let self = (equal_iff ip ip).1 refl in
      record {
        kind = ap (λ (f : Config). f.behavior) c ∙ kind;
        entry = refreshed ip_string port_of b.cfg.behavior e dst now;
        maps = m;
        last = refl;
        contact = λ r.
            ground (arith, ap is_restricted kind ∙ r, self, lookup-insert ip ip true e.contact_ip);
      }

  pub reclaim_expired-Kept :
      (behavior : Behavior) (dst : UdpAddr) (seen : ℕ) (b : Box) (now : ℕ)
      → InTime b seen now
      → Kept behavior dst seen b
      → Kept behavior dst seen (reclaim_expired now b.mappings b)
  reclaim_expired-Kept behavior dst seen b now h v =
      rw (reclaim_expired-Maps b v.entry now v.maps, InTime-lives v.entry b seen now v.last h) v

  pub Kept-Handled :
      (behavior : Behavior) (dst : UdpAddr) (seen : ℕ) (b b' : Box) (now : ℕ) (bound : Option ℕ)
      (ds : List UdpAddr)
      → is_symmetric behavior ≡ false
      → InTime b seen now
      → Handled ip_string port_of addr_key addr_string resolve b b' now bound ds
      → Kept behavior dst seen b
      → Kept behavior dst (last_use ds seen now) b'
  Kept-Handled behavior dst seen b b' now bound _ k h (ignored same) v =
      Kept-Same behavior dst seen b' b same v
  Kept-Handled behavior dst seen b b' now bound _ k h (used d same) v =
      Kept-Same behavior dst now b' (outbound_socket ip_string port_of b now bound d).0 same
        (Kept-again behavior dst d seen b now bound k h v)

  -- the datagram that asks for `dst`, on a box with any past
  pub Kept-first :
      (behavior : Behavior) (dst : UdpAddr) (b b' : Box) (now : ℕ) (bound : Option ℕ)
      (ds : List UdpAddr)
      → b.cfg.behavior ≡ behavior
      → is_symmetric behavior ≡ false
      → Single b
      → Handled ip_string port_of addr_key addr_string resolve b b' now bound ds
      → ds ≡ dst ∷ []
      → Kept behavior dst now b'
  Kept-first behavior dst b b' now bound _ kind k v (ignored same) q = cc q
  Kept-first behavior dst b b' now bound _ kind k v (used d same) q =
      let here : d ≡ dst = cc q in
      let next = (outbound_socket ip_string port_of b now bound d).0 in
      Kept-Same behavior dst now b' next same (
        subst (λ x. Kept behavior x now next) here
          (Kept-Socketed behavior d b next now kind k (
            outbound_socket-Socketed ip_string port_of b now bound d (ap is_symmetric kind ∙ k) v)))
