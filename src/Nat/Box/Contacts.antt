-- ===== src/Nat/Box/Contacts.antt =====
-- nat.go: who gets in. A source is admitted only where the private host asked for it.
use network_project.Prelude.{
  ℕ, ◌≡◌, refl, sym, ◌⊎◌, inl, inr, true, List, [], ◌∷◌, Option, none, some, arith, Bytes,
  Bool-cases, if-rule, Option-cases, equal, equal_iff,
}
use mathlib.Core.Path.{subst}
use network_project.Net.{UdpAddr}
use network_project.Prelude.Assoc.{
  bytes_Eq, Values, Values-insert, Values-delete, Values-lookup, Values-map, lookup, insert,
  lookup-insert,
}
use network_project.Nat.Box.{
  Behavior, full_cone, address_restricted, symmetric, is_symmetric, MappingKey, key_Eq,
  MappingEntry, Box, last_seen_expired, reclaim,
}
use network_project.Nat.Box.Traffic.{
  ip_key, flow_key, refreshed, fresh_entry, open_mapping, use_mapping, outbound_socket,
}

abbrev pub Any : (UdpAddr → Type 0) → List UdpAddr → Type 0
Any P [] = ⊥
Any P (d ∷ ds) = P d ⊎ Any P ds

module _ (ip_string : Bytes → Bytes) where
  -- An entry lets in only what one of the destinations `sent` stands for.
  abbrev pub KnownBy : Behavior → List UdpAddr → MappingEntry → Type 0
  KnownBy full_cone sent e = Any (λ _. Unit {0}) sent
  KnownBy address_restricted sent e =
      (ip : Bytes) → lookup ip e.contact_ip ≡ some true → Any (λ d. ip_key ip_string d.ip ≡ ip) sent
  KnownBy symmetric sent e =
      Any (λ d. (ip_key ip_string d.ip ≡ e.dst_ip) × (d.port ≡ e.dst_port)) sent

  -- A destination allows a source: any one, one of its IP, or one of its IP and port.
  abbrev pub Allows : Behavior → UdpAddr → UdpAddr → Type 0
  Allows full_cone src d = Unit {0}
  Allows address_restricted src d = ip_key ip_string d.ip ≡ ip_key ip_string src.ip
  Allows symmetric src d = (ip_key ip_string d.ip ≡ ip_key ip_string src.ip) × (d.port ≡ src.port)

  KnownBy-more :
      (behavior : Behavior) (sent : List UdpAddr) (dst : UdpAddr) (e : MappingEntry)
      → KnownBy behavior sent e
      → KnownBy behavior (dst ∷ sent) e
  KnownBy-more full_cone sent dst e h = inr h
  KnownBy-more address_restricted sent dst e h = λ ip k. inr (h ip k)
  KnownBy-more symmetric sent dst e h = inr h

  module _ (port_of : Option ℕ → ℕ) where
    fresh_entry-KnownBy :
        (behavior : Behavior) (sent : List UdpAddr) (conn : Option ℕ) (dst : UdpAddr) (now : ℕ)
        → KnownBy behavior (dst ∷ sent) (fresh_entry ip_string port_of behavior conn dst now)
    unfolding fresh_entry flow_key lookup
    fresh_entry-KnownBy full_cone sent conn dst now = inl tt
    fresh_entry-KnownBy address_restricted sent conn dst now =
        λ ip k. inl (ground (arith, k, equal_iff (ip_key ip_string dst.ip) ip))
    fresh_entry-KnownBy symmetric sent conn dst now = inl (refl, refl)

    refreshed-KnownBy :
        (behavior : Behavior) (sent : List UdpAddr) (e : MappingEntry) (dst : UdpAddr) (now : ℕ)
        → KnownBy behavior sent e
        → KnownBy behavior (dst ∷ sent) (refreshed ip_string port_of behavior e dst now)
    unfolding refreshed
    refreshed-KnownBy full_cone sent e dst now h = inr h
    refreshed-KnownBy address_restricted sent e dst now h = λ ip k.
        elim (Bool-cases (equal (ip_key ip_string dst.ip) ip)) [
          | inl here ↦ inl ((equal_iff (ip_key ip_string dst.ip) ip).0 here)
          | inr other ↦ inr (
              h ip (
                ground
                  (arith, k, other, lookup-insert (ip_key ip_string dst.ip) ip true e.contact_ip)))
        ]
    refreshed-KnownBy symmetric sent e dst now h = inr h

    -- The box is of the kind `behavior`, and its entries let in only what `sent` stands for.
    pub record Inv (behavior : Behavior) (sent : List UdpAddr) (b : Box) : Type 0 where
      pub kind : b.cfg.behavior ≡ behavior
      pub known : Values (KnownBy behavior sent) b.mappings

    Inv-store :
        (behavior : Behavior) (sent : List UdpAddr) (b : Box) (dst : UdpAddr) (e : MappingEntry)
        (k : MappingKey)
        → Inv behavior sent b
        → KnownBy behavior (dst ∷ sent) e
        → Inv behavior (dst ∷ sent) (record b { mappings = insert k e b.mappings })
    Inv-store behavior sent b dst e k v h = record {
      kind = v.kind;
      known = Values-insert (KnownBy behavior (dst ∷ sent)) k e b.mappings h (
          Values-map (KnownBy behavior sent) (KnownBy behavior (dst ∷ sent)) b.mappings
            (KnownBy-more behavior sent dst) v.known);
    }

    Inv-more :
        (behavior : Behavior) (sent : List UdpAddr) (b : Box) (dst : UdpAddr)
        → Inv behavior sent b
        → Inv behavior (dst ∷ sent) b
    Inv-more behavior sent b dst v = record {
      kind = v.kind;
      known =
          Values-map (KnownBy behavior sent) (KnownBy behavior (dst ∷ sent)) b.mappings
            (KnownBy-more behavior sent dst) v.known;
    }

    pub Inv-reclaim :
        (behavior : Behavior) (sent : List UdpAddr) (b : Box) (k : MappingKey) (e : MappingEntry)
        → Inv behavior sent b
        → Inv behavior sent (reclaim b k e)
    unfolding reclaim
    Inv-reclaim behavior sent b k e v = record {
      kind = v.kind;
      known = Values-delete (KnownBy behavior sent) k b.mappings v.known;
    }

    fresh_known :
        (behavior : Behavior) (sent : List UdpAddr) (b : Box) (conn : Option ℕ) (dst : UdpAddr)
        (now : ℕ)
        → b.cfg.behavior ≡ behavior
        → KnownBy behavior (dst ∷ sent) (fresh_entry ip_string port_of b.cfg.behavior conn dst now)
    fresh_known behavior sent b conn dst now k =
        subst (λ c. KnownBy behavior (dst ∷ sent) (fresh_entry ip_string port_of c conn dst now))
          (sym k) (fresh_entry-KnownBy behavior sent conn dst now)

    open_mapping-Inv :
        (behavior : Behavior) (sent : List UdpAddr) (b : Box) (now : ℕ) (bound : Option ℕ)
        (dst : UdpAddr)
        → Inv behavior sent b
        → Inv behavior (dst ∷ sent) (open_mapping ip_string port_of b now bound dst).0
    unfolding open_mapping
    open_mapping-Inv behavior sent b now none dst v =
        let Good = λ (r : Box × Option ℕ). Inv behavior (dst ∷ sent) r.0 in
        let same = Inv-more behavior sent b dst v in
        if-rule Good (is_symmetric b.cfg.behavior) _ _ (if-rule Good b.closed _ _ same same) (
          Inv-store behavior sent b dst _ (flow_key ip_string b.cfg.behavior dst) v
            (fresh_known behavior sent b b.fixed_conn dst now v.kind))
    open_mapping-Inv behavior sent b now (some c) dst v =
        let Good = λ (r : Box × Option ℕ). Inv behavior (dst ∷ sent) r.0 in
        let same = Inv-more behavior sent b dst v in
        let k = flow_key ip_string b.cfg.behavior dst in
        let new = λ (conn : Option ℕ).
          Inv-store behavior sent b dst (fresh_entry ip_string port_of b.cfg.behavior conn dst now)
            k v (fresh_known behavior sent b conn dst now v.kind) in
        if-rule Good (is_symmetric b.cfg.behavior) _ _
          (if-rule Good b.closed _ _ same (new (some c))) (new b.fixed_conn)

    use_mapping-Inv :
        (behavior : Behavior) (sent : List UdpAddr) (b : Box) (now : ℕ) (e : MappingEntry)
        (dst : UdpAddr)
        → Inv behavior sent b
        → KnownBy behavior sent e
        → Inv behavior (dst ∷ sent) (use_mapping ip_string port_of b now e dst).0
    unfolding use_mapping
    use_mapping-Inv behavior sent b now e dst v h =
        let again : KnownBy behavior (dst ∷ sent)
            (refreshed ip_string port_of b.cfg.behavior e dst now) =
          subst (λ c. KnownBy behavior (dst ∷ sent) (refreshed ip_string port_of c e dst now))
            (sym v.kind) (refreshed-KnownBy behavior sent e dst now h) in
        Inv-store behavior sent b dst _ (flow_key ip_string b.cfg.behavior dst) v again

    pub outbound_socket-Inv :
        (behavior : Behavior) (sent : List UdpAddr) (b : Box) (now : ℕ) (bound : Option ℕ)
        (dst : UdpAddr)
        → Inv behavior sent b
        → Inv behavior (dst ∷ sent) (outbound_socket ip_string port_of b now bound dst).0
    unfolding outbound_socket
    outbound_socket-Inv behavior sent b now bound dst v =
        let k = flow_key ip_string b.cfg.behavior dst in
        let Good = λ (r : Box × Option ℕ). Inv behavior (dst ∷ sent) r.0 in
        elim (Option-cases (lookup k b.mappings)) [
          | inl e ↦ rw (e, outbound_socket) (open_mapping-Inv behavior sent b now bound dst v)
          | inr (m, e) ↦
              rw (e, outbound_socket)
                (if-rule Good (last_seen_expired m now b.cfg.mapping_ttl) _ _
                  (open_mapping-Inv behavior sent (reclaim b k m) now bound dst
                    (Inv-reclaim behavior sent b k m v))
                  (use_mapping-Inv behavior sent b now m dst v
                    (Values-lookup (KnownBy behavior sent) k m b.mappings e v.known)))
        ]
