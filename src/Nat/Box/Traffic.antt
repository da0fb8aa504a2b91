-- ===== src/Nat/Box/Traffic.antt =====
-- nat.go: the outbound and the inbound path of the box.
use network_project.Prelude.{
  ℕ, Bool, true, false, not, ◌&&◌, ◌||◌, List, [], ◌∷◌, Option, none, some, Bytes, ◌==◌,
  if◌then◌else◌, ok, err, equal,
}
use network_project.Net.{UdpAddr, to4, to16}
use network_project.Nat.Envelope.{Outbound, wrap_inbound, unwrap_outbound}
use network_project.Prelude.Assoc.{bytes_Eq, lookup, insert}
use network_project.Nat.Box.{
  Behavior, is_symmetric, is_restricted, MappingKey, key_Eq, MappingEntry, Box, same_conn,
  last_seen_expired, reclaim, inc_outbound, inc_inbound, inc_dropped,
}

-- the socket of the mapping that owns `sock`, if one does
unfoldable pub find_conn : ℕ → List (MappingKey × MappingEntry) → Option MappingEntry
find_conn sock [] = none
find_conn sock ((_, e) ∷ rest) =
    if same_conn e.pub_conn (some sock) then some e else find_conn sock rest

-- a read of a Go map of Booleans
abbrev pub contacted : Option Bool → Bool
contacted none = false
contacted (some v) = v

module _ (ip_string : Bytes → Bytes) where
  unfoldable pub ip_key : Bytes → Bytes
  ip_key ip = elim (to4 ip) [
    | some v4 ↦ ip_string v4
    | none ↦ elim (to16 ip) [ some v6 ↦ ip_string v6 | none ↦ [] ]
  ]

  -- the key of the flow to `dst`
  unfoldable pub flow_key : Behavior → UdpAddr → MappingKey
  flow_key behavior dst = if is_symmetric behavior then (ip_key dst.ip, dst.port) else ([], 0)

  module _ (port_of : Option ℕ → ℕ) where
    -- the entry of a mapping that is used again
    unfoldable pub refreshed : Behavior → MappingEntry → UdpAddr → ℕ → MappingEntry
    refreshed behavior e dst now =
        let contacts = insert (ip_key dst.ip) true e.contact_ip in
        record e {
          last_seen = now;
          contact_ip = if is_restricted behavior then contacts else e.contact_ip;
        }

    -- the entry of a new mapping on `conn`
    unfoldable pub fresh_entry : Behavior → Option ℕ → UdpAddr → ℕ → MappingEntry
    fresh_entry behavior conn dst now =
        let k = flow_key behavior dst in
        record {
          pub_conn = conn;
          pub_port = port_of conn;
          dst_ip = k.0;
          dst_port = k.1;
          contact_ip =
              if is_symmetric behavior || is_restricted behavior
              then (ip_key dst.ip, true) ∷ []
              else [];
          last_seen = now;
        }

    abbrev store : Box → MappingKey → MappingEntry → Box
    store b k e = record b { mappings = insert k e b.mappings }

    -- a new mapping; `bound` is the socket that is bound for it, if the box is symmetric
    unfoldable pub open_mapping : Box → ℕ → Option ℕ → UdpAddr → Box × Option ℕ
    open_mapping b now bound dst =
        let k = flow_key b.cfg.behavior dst in
        if is_symmetric b.cfg.behavior
        then if b.closed then (b, none) else elim bound [
          | none ↦ (b, none)
          | some c ↦ (store b k (fresh_entry b.cfg.behavior (some c) dst now), some c)
        ]
        else (store b k (fresh_entry b.cfg.behavior b.fixed_conn dst now), b.fixed_conn)

    unfoldable pub use_mapping : Box → ℕ → MappingEntry → UdpAddr → Box × Option ℕ
    use_mapping b now e dst =
        (store b (flow_key b.cfg.behavior dst) (refreshed b.cfg.behavior e dst now), e.pub_conn)

    -- `outboundSocket`: the socket, or `none` for an error
    unfoldable pub outbound_socket : Box → ℕ → Option ℕ → UdpAddr → Box × Option ℕ
    outbound_socket b now bound dst =
        let k = flow_key b.cfg.behavior dst in
        elim (lookup k b.mappings) [
          | none ↦ open_mapping b now bound dst
          | some e ↦
              if last_seen_expired e now b.cfg.mapping_ttl
              then open_mapping (reclaim b k e) now bound dst
              else use_mapping b now e dst
        ]

    module _ (addr_key : UdpAddr → Bytes) (resolve : Bytes → Option UdpAddr) where
      -- the datagram that leaves: its socket, its destination and its bytes
      abbrev pub Sent : Type 0
      Sent = Option (ℕ × UdpAddr × Bytes)

      unfoldable pub forward_outbound :
          (ℕ → UdpAddr → Bytes → Bool) → Box → ℕ → Option ℕ → Outbound → Box × Sent
      forward_outbound write_fails b now bound o =
          let (b', conn) = outbound_socket b now bound o.dst in
          elim conn [
            | none ↦ (inc_dropped b', none)
            | some c ↦
                if write_fails c o.dst o.frame
                then (inc_dropped b', none)
                else (inc_outbound b', some (c, o.dst, o.frame))
          ]

      unfoldable pub handle_outbound :
          (ℕ → UdpAddr → Bytes → Bool) → Box → ℕ → Option ℕ → Bytes → UdpAddr → Box × Sent
      handle_outbound write_fails b now bound pkt src =
          if not (equal (addr_key src) b.private_host_key)
          then (inc_dropped b, none)
          else elim (unwrap_outbound resolve pkt) [
            | err _ ↦ (inc_dropped b, none)
            | ok o ↦ forward_outbound write_fails b now bound o
          ]

  unfoldable pub lookup_inbound : Box → ℕ → ℕ → UdpAddr → Bool
  lookup_inbound b now sock src =
      if is_symmetric b.cfg.behavior
      then elim (find_conn sock b.mappings) [
        | none ↦ false
        | some e ↦
            if last_seen_expired e now b.cfg.mapping_ttl
            then false
            else equal e.dst_ip (ip_key src.ip) && e.dst_port == src.port
      ]
      else elim (lookup ([], 0) b.mappings) [
        | none ↦ false
        | some e ↦
            if last_seen_expired e now b.cfg.mapping_ttl
            then false
            else if is_restricted b.cfg.behavior
            then contacted (lookup (ip_key src.ip) e.contact_ip)
            else true
      ]

  unfoldable pub handle_inbound :
      (UdpAddr → Bytes)
      → (ℕ → UdpAddr → Bytes → Bool)
      → Box
      → ℕ
      → ℕ
      → Bytes
      → UdpAddr
      → Box × Option (ℕ × UdpAddr × Bytes)
  handle_inbound addr_string write_fails b now sock pkt src =
      let env = wrap_inbound addr_string src pkt in
      let host = b.cfg.private_host in
      if not (lookup_inbound b now sock src)
      then (inc_dropped b, none)
      else if write_fails sock host env
      then (inc_dropped b, none)
      else (inc_inbound b, some (sock, host, env))
