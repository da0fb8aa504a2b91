-- ===== src/Agent.antt =====
-- internal/agent/agent.go and tunbridge.go: the peers that an agent tracks, the datagrams that it hands
-- them, and what it wraps for the wire. Peers are kept by name; a peer that is dropped is closed and out
-- of reach. How addresses are printed and resolved, `hex.DecodeString`, and the sinks of the router are
-- parameters. Go ranges over a map in any order; the order of the list stands for the one taken. The
-- outer `none` is a panic.
pub mod Steps
pub mod Trust
pub mod Known
pub mod Exchange
pub mod Pings
use network_project.Prelude.{
  ℕ, zero, suc, ◌+◌, ◌-◌, ◌*◌, ◌/◌, ◌%◌, ◌^◌, ◌≤◌, ◌<◌, ◌≡◌, refl, sym, ap, ◌∙◌, ◌≢◌, ◌↔◌, ◌⊎◌, inl,
  inr, Bool, true, false, not, ◌&&◌, ◌||◌, List, [], ◌∷◌, ◌++◌, map, Option, none, some, arith,
  Bytes, AllBytes, All, length, get_or, set, take, drop, replicate, ltb, leb, ◌==◌, if◌then◌else◌,
  Bool-cases, if-rule, Option-cases, Result, ok, err, ◌>>=◌, ◌>>◌, fail_if, wrap, put_u16, u16_at,
  put_u32, u32_at, equal, equal_iff, equal_refl, Result-cases, length-append, take-append,
  drop-append, ltb→lt, ltb→ge, lt→ltb, ge→ltb, ==_iff,
}
use network_project.Prelude.Assoc.{bytes_Eq, lookup, insert}
use network_project.Net.{UdpAddr}
use network_project.Noisework.Cipher.{Noise}
use network_project.Noisework.Handshake.{key_size}
use network_project.Peer.State.{Handshakes, Output, Peer, new_peer, set_direct_ep}
use network_project.Peer.Handshake.{handle_frame}
use network_project.Protocol.{PeerInfo}
use network_project.Relay.Packet.{PacketError, wrap_packet, parse_packet}
use network_project.Nat.Envelope.{EnvelopeError, wrap_outbound, unwrap_inbound}
use network_project.Tun.Router.{Addr, no_ip4, Router, set_route}

-- `noisework.ParsePublicKeyHex`
unfoldable pub parse_public_key_hex : (Bytes → Option Bytes) → Bytes → Option Bytes
parse_public_key_hex hex_decode s =
    if not (length s == key_size * 2) then none else elim (hex_decode s) [
      | none ↦ none
      | some b ↦ if not (length b == key_size) then none else some b
    ]

unfoldable pub member : Bytes → List Bytes → Bool
member k [] = false
member k (x ∷ xs) = equal x k || member k xs

pub data SendError : Type 0 where
  no_relay : SendError
  in_packet : PacketError → SendError
  in_envelope : EnvelopeError → SendError

module _ (noise : Noise) (hs : Handshakes noise) (World : Type 0)
    (sink_send : World → Bytes → Bytes → World × Bool) where
  -- The sink of a peer is its name.
  pub record Bridge : Type 0 where
    pub ip_by_peer : List (Bytes × Addr)
    pub router : Router Bytes World sink_send

  pub record Agent : Type 0 where
    pub name : Bytes
    pub door : Option UdpAddr
    pub relay : Option UdpAddr
    pub peers : List (Bytes × Peer noise hs)
    pub bridge : Option Bridge

  -- A peer without an overlay address has the zero address.
  unfoldable pub set_peer_sink : Bridge → Bytes → Option Bytes → Bridge
  set_peer_sink b id s =
      let dst : Addr = elim (lookup id b.ip_by_peer) [ none ↦ no_ip4 | some a ↦ a ] in
      record b { router = set_route Bytes World sink_send b.router dst s }

  unfoldable pub with_sink : Option Bridge → Bytes → Option Bytes → Option Bridge
  with_sink none id s = none
  with_sink (some b) id s = some (set_peer_sink b id s)

  unfoldable pub attach_sinks : List (Bytes × Peer noise hs) → Bridge → Bridge
  attach_sinks [] b = b
  attach_sinks ((id, p) ∷ m) b = attach_sinks m (set_peer_sink b id (some id))

  unfoldable pub attach_bridge : Agent → Bridge → Agent
  attach_bridge a b = record a { bridge = some (attach_sinks a.peers b) }

  -- the names of the list, without the agent's own
  unfoldable pub seen_names : Bytes → List PeerInfo → List Bytes
  seen_names name [] = []
  seen_names name (info ∷ infos) =
      let rest = seen_names name infos in if equal info.id name then rest else info.id ∷ rest

  unfoldable pub prune : List Bytes → List (Bytes × Peer noise hs) → List (Bytes × Peer noise hs)
  prune seen [] = []
  prune seen ((id, p) ∷ m) =
      let rest = prune seen m in if member id seen then (id, p) ∷ rest else rest

  unfoldable pub drop_sinks :
      List Bytes → List (Bytes × Peer noise hs) → Option Bridge → Option Bridge
  drop_sinks seen [] b = b
  drop_sinks seen ((id, p) ∷ m) b =
      let rest = drop_sinks seen m (with_sink b id none) in
      let kept = drop_sinks seen m b in if member id seen then kept else rest

  module _ (resolve : Bytes → Option UdpAddr) (hex_decode : Bytes → Option Bytes) where
    unfoldable pub first_endpoint : PeerInfo → Option UdpAddr
    first_endpoint info = elim info.endpoints [ [] ↦ none | e ∷ _ ↦ resolve e ]

    -- the key of a tracked peer stays
    unfoldable pub refresh : Agent → PeerInfo → Peer noise hs → Agent
    refresh a info p = elim (first_endpoint info) [
      | none ↦ a
      | some ep ↦ record a { peers = insert info.id (set_direct_ep noise hs p (some ep)) a.peers }
    ]

    unfoldable pub track : Agent → PeerInfo → Agent
    track a info = elim (parse_public_key_hex hex_decode info.pub_key) [
      | none ↦ a
      | some key ↦
          let p = new_peer noise hs a.name info.id key (first_endpoint info) a.relay in
          record a {
            peers = insert info.id p a.peers;
            bridge = with_sink a.bridge info.id (some info.id);
          }
    ]

    unfoldable pub apply_info : Agent → PeerInfo → Agent
    apply_info a info =
        if equal info.id a.name
        then a
        else elim (lookup info.id a.peers) [ some p ↦ refresh a info p | none ↦ track a info ]

    unfoldable pub apply_infos : Agent → List PeerInfo → Agent
    apply_infos a [] = a
    apply_infos a (info ∷ infos) = apply_infos (apply_info a info) infos

    unfoldable pub apply_peers : Agent → List PeerInfo → Agent
    apply_peers a infos =
        let seen = seen_names a.name infos in
        let a1 = apply_infos a infos in
        record a1 { peers = prune seen a1.peers; bridge = drop_sinks seen a1.peers a1.bridge }

  module _ (resolve : Bytes → Option UdpAddr) (addr_string : UdpAddr → Bytes) where
    -- the peer whose endpoint a datagram comes from
    unfoldable pub find_by_endpoint :
        UdpAddr → List (Bytes × Peer noise hs) → Option (Bytes × Peer noise hs)
    find_by_endpoint src [] = none
    find_by_endpoint src ((id, p) ∷ m) =
        let rest = find_by_endpoint src m in
        elim p.direct_ep [
          | none ↦ rest
          | some ep ↦ if equal (addr_string src) (addr_string ep) then some (id, p) else rest
        ]

    abbrev is_relay : Option UdpAddr → UdpAddr → Bool
    is_relay none src = false
    is_relay (some ra) src = equal (addr_string src) (addr_string ra)

    -- the peer that a datagram is for, under its name, and the frame
    unfoldable pub demux : Agent → UdpAddr → Bytes → Option (Bytes × Bytes)
    demux a src frame =
        if is_relay a.relay src
        then elim (parse_packet frame) [
          | err _ ↦ none
          | ok pkt ↦ elim (lookup pkt.src_id a.peers) [
            | none ↦ none
            | some p ↦ some (pkt.src_id, pkt.frame)
          ]
        ]
        else elim (find_by_endpoint src a.peers) [ none ↦ none | some (id, p) ↦ some (id, frame) ]

    -- the external source and the frame: behind a box they stand in the envelope
    unfoldable pub through_door : Agent → UdpAddr → Bytes → Option (UdpAddr × Bytes)
    through_door a src datagram = elim a.door [
      | none ↦ some (src, datagram)
      | some _ ↦ elim (unwrap_inbound resolve datagram) [
        | err _ ↦ none
        | ok (s, payload) ↦ some (s, payload)
      ]
    ]

    -- `matched.HandleFrame`
    unfoldable pub hand_over :
        Agent → ℕ → ℕ → UdpAddr → Bytes → Bytes → Option (Agent × Option Output)
    hand_over a now seed src id frame = elim (lookup id a.peers) [
      | none ↦ some (a, none)
      | some p ↦ elim (handle_frame noise hs addr_string p now seed (some src) frame) [
        | none ↦ none
        | some (p', out) ↦ some (record a { peers = insert id p' a.peers }, out)
      ]
    ]

    -- one round of `receiveLoop`
    unfoldable pub receive : Agent → ℕ → ℕ → UdpAddr → Bytes → Option (Agent × Option Output)
    receive a now seed src datagram = elim (through_door a src datagram) [
      | none ↦ some (a, none)
      | some (ext, frame) ↦ elim (demux a ext frame) [
        | none ↦ some (a, none)
        | some (id, f) ↦ hand_over a now seed ext id f
      ]
    ]

    -- `sendDatagram`: where the bytes go
    unfoldable pub send_datagram : Agent → UdpAddr → Bytes → Result SendError (UdpAddr × Bytes)
    send_datagram a dst pkt = elim a.door [
      | none ↦ ok (dst, pkt)
      | some door ↦ elim (wrap_outbound addr_string a.name (some dst) pkt) [
        | err e ↦ err (in_envelope e)
        | ok wrapped ↦ ok (door, wrapped)
      ]
    ]

    unfoldable pub send_relay : Agent → Bytes → Bytes → Result SendError (UdpAddr × Bytes)
    send_relay a id frame = elim a.relay [
      | none ↦ err no_relay
      | some ra ↦ elim (wrap_packet a.name id frame) [
        | err e ↦ err (in_packet e)
        | ok pkt ↦ send_datagram a ra pkt
      ]
    ]
