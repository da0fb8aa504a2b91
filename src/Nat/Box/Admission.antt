-- ===== src/Nat/Box/Admission.antt =====
-- nat.go: the box over time, and whom it admits.
use network_project.Prelude.{
  ℕ, ◌≡◌, ap, ◌∙◌, inl, inr, Bool, true, false, not, List, [], ◌∷◌, ◌++◌, Option, some, arith,
  Bytes, ◌==◌, if◌then◌else◌, Bool-cases, if-rule, Option-cases, ok, err, equal, equal_iff,
  Result-cases,
}
use mathlib.Core.Path.{subst}
use network_project.Net.{UdpAddr}
use network_project.Nat.Envelope.{Outbound, wrap_inbound, unwrap_outbound}
use network_project.Prelude.Assoc.{bytes_Eq, Values, Values-lookup, lookup}
use network_project.Nat.Box.{
  Behavior, full_cone, address_restricted, symmetric, is_symmetric, is_restricted, Config,
  MappingKey, key_Eq, MappingEntry, Stats, Box, same_conn, last_seen_expired, reclaim_expired,
  cleanup, new_box, read_stats, close,
}
use network_project.Nat.Box.Traffic.{
  find_conn, ip_key, outbound_socket, forward_outbound, handle_outbound, lookup_inbound,
  handle_inbound,
}
use network_project.Nat.Box.Contacts.{Any, KnownBy, Allows, Inv, Inv-reclaim, outbound_socket-Inv}

find_conn-Values :
    (P : MappingEntry → Type 0) (sock : ℕ) (e : MappingEntry) (m : List (MappingKey × MappingEntry))
    → find_conn sock m ≡ some e
    → Values P m
    → P e
unfolding find_conn
find_conn-Values P sock e [] i h = cc i
find_conn-Values P sock e ((k, w) ∷ m) i h = elim (Bool-cases (same_conn w.pub_conn (some sock))) [
  | inl here ↦ let same : w ≡ e = ground (arith, here, i) in subst P same h.0
  | inr other ↦
      let later : find_conn sock m ≡ some e = ground (arith, other, i) in
      find_conn-Values P sock e m later h.1
]

Any-map :
    (P Q : UdpAddr → Type 0) (ds : List UdpAddr) → ((d : UdpAddr) → P d → Q d) → Any P ds → Any Q ds
Any-map P Q [] f h = h
Any-map P Q (d ∷ ds) f (inl p) = inl (f d p)
Any-map P Q (d ∷ ds) f (inr h) = inr (Any-map P Q ds f h)

-- What an admitted source shows, on a box with one mapping and on one with a mapping for each flow.
fixed_admits :
    (ip_string : Bytes → Bytes) (b : Box) (now sock : ℕ) (src : UdpAddr)
    → is_symmetric b.cfg.behavior ≡ false
    → lookup_inbound ip_string b now sock src ≡ true
    → (e : MappingEntry) × (lookup ([], 0) b.mappings ≡ some e)
      × (is_restricted b.cfg.behavior ≡ true
          → lookup (ip_key ip_string src.ip) e.contact_ip ≡ some true)
unfolding lookup_inbound
fixed_admits ip_string b now sock src k h = elim (Option-cases (lookup ([], 0) b.mappings)) [
  | inl e ↦ ground (arith, k, h, e)
  | inr (m, e) ↦ (
    m,
    e,
    λ r. elim (Option-cases (lookup (ip_key ip_string src.ip) m.contact_ip)) [
      | inl f ↦ ground (arith, k, h, e, r, f)
      | inr (v, f) ↦ ground (arith, k, h, e, r, f)
    ],
  )
]

symmetric_admits :
    (ip_string : Bytes → Bytes) (b : Box) (now sock : ℕ) (src : UdpAddr)
    → is_symmetric b.cfg.behavior ≡ true
    → lookup_inbound ip_string b now sock src ≡ true
    → (e : MappingEntry) × (find_conn sock b.mappings ≡ some e)
      × (e.dst_ip ≡ ip_key ip_string src.ip)
      × (e.dst_port ≡ src.port)
unfolding lookup_inbound
symmetric_admits ip_string b now sock src k h = elim (Option-cases (find_conn sock b.mappings)) [
  | inl e ↦ ground (arith, k, h, e)
  | inr (m, e) ↦ (
    m,
    e,
    ground (arith, k, h, e, equal_iff m.dst_ip (ip_key ip_string src.ip)),
    ground (arith, k, h, e),
  )
]

module _ (ip_string : Bytes → Bytes) (port_of : Option ℕ → ℕ)
    (addr_key addr_string : UdpAddr → Bytes) (resolve : Bytes → Option UdpAddr) where
  -- the destinations that a datagram on the inside door asks for
  unfoldable pub requested : Box → Bytes → UdpAddr → List UdpAddr
  requested b pkt src =
      if not (equal (addr_key src) b.private_host_key)
      then []
      else elim (unwrap_outbound resolve pkt) [ err _ ↦ [] | ok o ↦ o.dst ∷ [] ]

  -- A box over time, with the destinations that its private host has asked for.
  pub data History (behavior : Behavior) : List UdpAddr → Box → Type 0 where
    opened :
        (cfg : Config) (fixed : Option ℕ)
        → cfg.behavior ≡ behavior
        → History behavior [] (new_box addr_key cfg fixed)
    went_out :
        (sent : List UdpAddr) (b : Box) (write_fails : ℕ → UdpAddr → Bytes → Bool) (now : ℕ)
        (bound : Option ℕ) (pkt : Bytes) (src : UdpAddr)
        → History behavior sent b
        → History behavior
            (requested b pkt src ++ sent)
            (handle_outbound ip_string port_of addr_key resolve write_fails b now bound pkt src).0
    came_in :
        (sent : List UdpAddr) (b : Box) (write_fails : ℕ → UdpAddr → Bytes → Bool) (now sock : ℕ)
        (pkt : Bytes) (src : UdpAddr)
        → History behavior sent b
        → History behavior sent
            (handle_inbound ip_string addr_string write_fails b now sock pkt src).0
    cleaned :
        (sent : List UdpAddr) (b : Box) (now : ℕ)
        → History behavior sent b
        → History behavior sent (cleanup b now)
    asked :
        (sent : List UdpAddr) (b : Box) (now : ℕ)
        → History behavior sent b
        → History behavior sent (read_stats b now).0
    ended :
        (sent : List UdpAddr) (b : Box) → History behavior sent b → History behavior sent (close b)

  -- the invariant reads the configuration and the mappings only
  Inv-counted :
      (behavior : Behavior) (sent : List UdpAddr) (b : Box) (stats : Stats)
      → Inv ip_string port_of behavior sent b
      → Inv ip_string port_of behavior sent (record b { stats = stats })
  Inv-counted behavior sent b stats v = record { kind = v.kind; known = v.known }

  reclaim_expired-Inv :
      (behavior : Behavior) (sent : List UdpAddr) (now : ℕ) (m : List (MappingKey × MappingEntry))
      (b : Box)
      → Inv ip_string port_of behavior sent b
      → Inv ip_string port_of behavior sent (reclaim_expired now m b)
  unfolding reclaim_expired
  reclaim_expired-Inv behavior sent now [] b v = v
  reclaim_expired-Inv behavior sent now ((k, e) ∷ m) b v =
      reclaim_expired-Inv behavior sent now m _ (
        if-rule (Inv ip_string port_of behavior sent) (last_seen_expired e now b.cfg.mapping_ttl) _
          _ (Inv-reclaim ip_string port_of behavior sent b k e v) v)

  forward_outbound-Inv :
      (behavior : Behavior) (sent : List UdpAddr) (b : Box)
      (write_fails : ℕ → UdpAddr → Bytes → Bool) (now : ℕ) (bound : Option ℕ) (o : Outbound)
      → Inv ip_string port_of behavior sent b
      → Inv ip_string port_of behavior
          (o.dst ∷ sent)
          (forward_outbound ip_string port_of addr_key resolve write_fails b now bound o).0
  unfolding forward_outbound
  forward_outbound-Inv behavior sent b write_fails now bound o v =
      let Good = λ (r : Box × Option (ℕ × UdpAddr × Bytes)).
        Inv ip_string port_of behavior (o.dst ∷ sent) r.0 in
      let next = outbound_socket ip_string port_of b now bound o.dst in
      let v' = outbound_socket-Inv ip_string port_of behavior sent b now bound o.dst v in
      elim (Option-cases next.1) [
        | inl e ↦ rw (e, forward_outbound) (Inv-counted behavior (o.dst ∷ sent) next.0 _ v')
        | inr (c, e) ↦
            rw (e, forward_outbound)
              (if-rule Good (write_fails c o.dst o.frame) _ _
                (Inv-counted behavior (o.dst ∷ sent) next.0 _ v')
                (Inv-counted behavior (o.dst ∷ sent) next.0 _ v'))
      ]

  handle_outbound-Inv :
      (behavior : Behavior) (sent : List UdpAddr) (b : Box)
      (write_fails : ℕ → UdpAddr → Bytes → Bool) (now : ℕ) (bound : Option ℕ) (pkt : Bytes)
      (src : UdpAddr)
      → Inv ip_string port_of behavior sent b
      → Inv ip_string port_of behavior
          (requested b pkt src ++ sent)
          (handle_outbound ip_string port_of addr_key resolve write_fails b now bound pkt src).0
  unfolding handle_outbound requested
  handle_outbound-Inv behavior sent b write_fails now bound pkt src v =
      elim (Bool-cases (equal (addr_key src) b.private_host_key)) [
        | inr other ↦ rw (other, handle_outbound) (Inv-counted behavior sent b _ v)
        | inl here ↦ elim (Result-cases (unwrap_outbound resolve pkt)) [
          | inr (x, e) ↦ rw (here, handle_outbound) (rw e (Inv-counted behavior sent b _ v))
          | inl (o, e) ↦
              rw (here, handle_outbound)
                (rw e (forward_outbound-Inv behavior sent b write_fails now bound o v))
        ]
      ]

  handle_inbound-Inv :
      (behavior : Behavior) (sent : List UdpAddr) (b : Box)
      (write_fails : ℕ → UdpAddr → Bytes → Bool) (now sock : ℕ) (pkt : Bytes) (src : UdpAddr)
      → Inv ip_string port_of behavior sent b
      → Inv ip_string port_of behavior sent
          (handle_inbound ip_string addr_string write_fails b now sock pkt src).0
  unfolding handle_inbound
  handle_inbound-Inv behavior sent b write_fails now sock pkt src v =
      let Good =
        λ (r : Box × Option (ℕ × UdpAddr × Bytes)). Inv ip_string port_of behavior sent r.0 in
      if-rule Good (not (lookup_inbound ip_string b now sock src)) _ _
        (Inv-counted behavior sent b _ v)
        (if-rule Good (write_fails sock b.cfg.private_host (wrap_inbound addr_string src pkt)) _ _
          (Inv-counted behavior sent b _ v) (Inv-counted behavior sent b _ v))

  pub History-Inv :
      (behavior : Behavior) (sent : List UdpAddr) (b : Box)
      → History behavior sent b
      → Inv ip_string port_of behavior sent b
  unfolding new_box cleanup read_stats close
  History-Inv behavior _ _ (opened cfg fixed k) = record { kind = k; known = tt }
  History-Inv behavior _ _ (went_out sent b write_fails now bound pkt src h) =
      handle_outbound-Inv behavior sent b write_fails now bound pkt src
        (History-Inv behavior sent b h)
  History-Inv behavior _ _ (came_in sent b write_fails now sock pkt src h) =
      handle_inbound-Inv behavior sent b write_fails now sock pkt src
        (History-Inv behavior sent b h)
  History-Inv behavior _ _ (cleaned sent b now h) =
      let v = History-Inv behavior sent b h in
      if-rule (Inv ip_string port_of behavior sent) (b.cfg.mapping_ttl == 0) _ _ v
        (reclaim_expired-Inv behavior sent now b.mappings b v)
  History-Inv behavior _ _ (asked sent b now h) =
      reclaim_expired-Inv behavior sent now b.mappings b (History-Inv behavior sent b h)
  History-Inv behavior _ _ (ended sent b h) =
      let v = History-Inv behavior sent b h in
      if-rule (Inv ip_string port_of behavior sent) b.closed _ _ v
        (record { kind = v.kind; known = tt })

  -- Whatever the box went through before: it admits a source only if its private host has asked for a
  -- destination that allows it. A full cone takes any destination, a restricted box one of the source's
  -- IP, and a symmetric box one of its IP and port.
  pub History-admits :
      (behavior : Behavior) (sent : List UdpAddr) (b : Box) (now sock : ℕ) (src : UdpAddr)
      → History behavior sent b
      → lookup_inbound ip_string b now sock src ≡ true
      → Any (Allows ip_string behavior src) sent
  History-admits behavior sent b now sock src h a = admits behavior (History-Inv behavior sent b h)
    where
      admits :
          (kind : Behavior)
          → Inv ip_string port_of kind sent b
          → Any (Allows ip_string kind src) sent
      admits full_cone v =
          let (e, i, _) = fixed_admits ip_string b now sock src (ap is_symmetric v.kind) a in
          Values-lookup (KnownBy ip_string full_cone sent) ([], 0) e b.mappings i v.known
      admits address_restricted v =
          let (e, i, c) = fixed_admits ip_string b now sock src (ap is_symmetric v.kind) a in
          Values-lookup (KnownBy ip_string address_restricted sent) ([], 0) e b.mappings i v.known
            (ip_key ip_string src.ip) (c (ap is_restricted v.kind))
      admits symmetric v =
          let (e, i, ip, port) =
            symmetric_admits ip_string b now sock src (ap is_symmetric v.kind) a in
          Any-map _ _ sent (λ d k. (k.0 ∙ ip, k.1 ∙ port))
            (find_conn-Values (KnownBy ip_string symmetric sent) sock e b.mappings i v.known)
