-- ===== src/Tests/Agents.antt =====
-- agent.go: an agent is told of a peer, whose handshake then arrives from its endpoint.
use network_project.Prelude.{
  if◌then◌else◌, ◌==◌, arith, ℕ, ◌≡◌, refl, Bool, true, false, [], ◌∷◌, Option, none, some, Bytes,
  replicate, equal,
}
use network_project.Prelude.Assoc.{bytes_Eq, lookup, insert}
use network_project.Net.{UdpAddr, ip_equal}
use network_project.Protocol.{PeerInfo}
use network_project.Peer.State.{Peer, Output}
use network_project.Tests.Sessions.{toy}
use network_project.Tests.Peers.{key, link, toy_handshakes, created}
use network_project.Record.{parse, frame}
use network_project.Peer.State.{send_frame, new_peer, set_session}
use network_project.Peer.Disco.{role_is_initiator}
use network_project.Peer.Handshake.{
  on_hs1, count_hs1, open_hs1, answer_hs1, answer_from_responder, drop_responder, handle_by_path,
  on_hs3, handle_frame,
}
use network_project.Agent.{
  Agent, parse_public_key_hex, member, set_peer_sink, with_sink, first_endpoint, refresh, track,
  apply_info, apply_infos, seen_names, prune, drop_sinks, apply_peers, find_by_endpoint, demux,
  through_door, hand_over, receive,
}
use network_project.Agent.Steps.{Announced, Reach, created as born_agent, listed, received}
use network_project.Agent.Known.{Reach-Known}
use network_project.Prelude.{◌*◌, ok}
use network_project.Relay.Packet.{validate_name, wrap_packet, parse_packet, parse_destination}
use network_project.Relay.Budget.{take, take_global, second}
use network_project.Relay.Server.{
  addr_equal, Server, Datagram, handle_packet, route, forward, write_forward, maybe_sweep,
  draw_global, draw_source, pin_source,
}
use network_project.Tests.Relays.{server, alice}
use network_project.Agent.{send_relay, send_datagram}
use network_project.Agent.Exchange.{relayed-received}

abbrev ip_text : UdpAddr → Bytes
ip_text a = a.ip

abbrev no_sink : Bytes → Bytes → Bytes → Bytes × Bool
no_sink w s b = (w, true)

abbrev home : UdpAddr
home = record { ip = 10 ∷ 0 ∷ 0 ∷ 1 ∷ []; port = 9; zone = [] }

abbrev resolve : Bytes → Option UdpAddr
resolve b = some home

abbrev hex : Bytes → Option Bytes
hex b = some key

abbrev info : PeerInfo
info = record { id = 97 ∷ []; pub_key = replicate 64 48; endpoints = (1 ∷ []) ∷ [] }

abbrev blank : Agent toy toy_handshakes Bytes no_sink
blank = record { name = 98 ∷ []; door = none; relay = none; peers = []; bridge = none }

abbrev told : Agent toy toy_handshakes Bytes no_sink
told = apply_peers toy toy_handshakes Bytes no_sink resolve hex blank (info ∷ [])

abbrev given :
    Agent toy toy_handshakes Bytes no_sink
    → ℕ
    → Bytes
    → Option (Agent toy toy_handshakes Bytes no_sink × Option Output)
given a now datagram =
    receive toy toy_handshakes Bytes no_sink resolve ip_text a now 0 home datagram

abbrev agent_of :
    Option (Agent toy toy_handshakes Bytes no_sink × Option Output)
    → Agent toy toy_handshakes Bytes no_sink
agent_of none = blank
agent_of (some (a, _)) = a

abbrev output_of : Option (Agent toy toy_handshakes Bytes no_sink × Option Output) → Option Output
output_of none = none
output_of (some (_, o)) = o

abbrev met : Agent toy toy_handshakes Bytes no_sink
met = agent_of (given told 5 (1 ∷ 0 ∷ 0 ∷ []))

abbrev linked : Agent toy toy_handshakes Bytes no_sink
linked = agent_of (given met 6 (3 ∷ 0 ∷ 0 ∷ []))

abbrev peer_of : Option (Peer toy toy_handshakes) → Peer toy toy_handshakes
peer_of none = new_peer toy toy_handshakes [] [] [] none none
peer_of (some p) = p

abbrev joined : Peer toy toy_handshakes
joined = peer_of (lookup (97 ∷ []) linked.peers)

meeting : given told 5 (1 ∷ 0 ∷ 0 ∷ []) ≡ some (met, output_of (given told 5 (1 ∷ 0 ∷ 0 ∷ [])))
unfolding receive through_door demux find_by_endpoint hand_over lookup insert apply_peers
    apply_infos apply_info track refresh first_endpoint parse_public_key_hex seen_names prune member
    drop_sinks with_sink set_peer_sink handle_frame handle_by_path on_hs1 count_hs1 open_hs1
    answer_hs1 answer_from_responder new_peer parse frame send_frame role_is_initiator on_hs3
    set_session drop_responder equal
meeting = refl

linking : given met 6 (3 ∷ 0 ∷ 0 ∷ []) ≡ some (linked, output_of (given met 6 (3 ∷ 0 ∷ 0 ∷ [])))
unfolding receive through_door demux find_by_endpoint hand_over lookup insert apply_peers
    apply_infos apply_info track refresh first_endpoint parse_public_key_hex seen_names prune member
    drop_sinks with_sink set_peer_sink handle_frame handle_by_path on_hs1 count_hs1 open_hs1
    answer_hs1 answer_from_responder new_peer parse frame send_frame role_is_initiator on_hs3
    set_session drop_responder equal
linking = refl

tracked : lookup (97 ∷ []) linked.peers ≡ some joined
unfolding receive through_door demux find_by_endpoint hand_over lookup insert apply_peers
    apply_infos apply_info track refresh first_endpoint parse_public_key_hex seen_names prune member
    drop_sinks with_sink set_peer_sink handle_frame handle_by_path on_hs1 count_hs1 open_hs1
    answer_hs1 answer_from_responder new_peer parse frame send_frame role_is_initiator on_hs3
    set_session drop_responder equal
tracked = refl

installed : joined.sess ≡ some link
unfolding receive through_door demux find_by_endpoint hand_over lookup insert apply_peers
    apply_infos apply_info track refresh first_endpoint parse_public_key_hex seen_names prune member
    drop_sinks with_sink set_peer_sink handle_frame handle_by_path on_hs1 count_hs1 open_hs1
    answer_hs1 answer_from_responder new_peer parse frame send_frame role_is_initiator on_hs3
    set_session drop_responder equal
installed = refl

reached : Reach toy toy_handshakes Bytes no_sink resolve ip_text hex (info ∷ []) linked
reached =
    received (info ∷ []) met linked _ 6 0 home (3 ∷ 0 ∷ 0 ∷ [])
      (received (info ∷ []) told met _ 5 0 home (1 ∷ 0 ∷ 0 ∷ [])
        (listed [] blank (info ∷ []) (born_agent (98 ∷ []) none none)) meeting)
      linking

Reach-Known_example :
    (equal (97 ∷ []) linked.name ≡ false)
    × Announced toy toy_handshakes Bytes no_sink resolve ip_text hex (97 ∷ []) key (info ∷ [])
Reach-Known_example =
    Reach-Known toy toy_handshakes Bytes no_sink resolve ip_text hex (info ∷ []) linked (97 ∷ [])
      joined link reached tracked installed

abbrev bob : Bytes
bob = 98 ∷ []

abbrev relay_addr : UdpAddr
relay_addr = record { ip = 10 ∷ 0 ∷ 0 ∷ 7 ∷ []; port = 70; zone = [] }

abbrev sender : Agent toy toy_handshakes Bytes no_sink
sender = record { name = alice; door = none; relay = some relay_addr; peers = []; bridge = none }

abbrev receiver : Agent toy toy_handshakes Bytes no_sink
receiver = record {
  name = bob;
  door = none;
  relay = some relay_addr;
  peers = (alice, created) ∷ [];
  bridge = none;
}

abbrev bob_addr : UdpAddr
bob_addr = record { ip = 10 ∷ 0 ∷ 0 ∷ 8 ∷ []; port = 71; zone = [] }

abbrev both_pinned : Server
both_pinned = record server {
  pins =
      (alice, record { addr = home; last_seen = 5 * second })
      ∷ (bob, record { addr = bob_addr; last_seen = 5 * second })
      ∷ [];
}

-- a frame of a message 1, for bob
abbrev packet : Bytes
packet = 0x52 ∷ 0 ∷ 1 ∷ 97 ∷ 0 ∷ 1 ∷ 98 ∷ 1 ∷ 0 ∷ 0 ∷ []

abbrev passed : Server × Option Datagram
passed = handle_packet ip_text both_pinned packet home (6 * second) true

abbrev passed_on : Datagram
passed_on = record { dst = bob_addr; payload = packet }

known : lookup alice receiver.peers ≡ some created
unfolding lookup equal
known = refl

wrapped :
    send_relay toy toy_handshakes Bytes no_sink resolve ip_text sender bob (1 ∷ 0 ∷ 0 ∷ [])
    ≡ ok (relay_addr, packet)
unfolding send_relay send_datagram wrap_packet validate_name
wrapped = refl

forwarded : passed ≡ (passed.0, some passed_on)
unfolding handle_packet route forward write_forward maybe_sweep draw_global draw_source pin_source
    take lookup insert equal parse_packet parse_destination wrap_packet take_global addr_equal
    ip_equal validate_name
forwarded = refl

abbrev listener : UdpAddr → Option (Agent toy toy_handshakes Bytes no_sink)
listener a = if a.port == 71 then some receiver else none

bob_pin : lookup bob both_pinned.pins ≡ some (record { addr = bob_addr; last_seen = 5 * second })
unfolding lookup equal
bob_pin = refl

relayed-received_example :
    (relay_addr ≡ relay_addr)
    × (listener passed_on.dst ≡ some receiver)
    × (receive toy toy_handshakes Bytes no_sink resolve ip_text receiver 7 0 relay_addr packet
        ≡ hand_over toy toy_handshakes Bytes no_sink resolve ip_text receiver 7 0 relay_addr alice
            (1 ∷ 0 ∷ 0 ∷ []))
relayed-received_example =
    relayed-received toy toy_handshakes Bytes no_sink resolve ip_text sender receiver listener
      (1 ∷ 0 ∷ 0 ∷ []) packet relay_addr relay_addr home both_pinned passed.0 passed_on
      (record { addr = bob_addr; last_seen = 5 * second }) created (6 * second) 7 0 refl refl refl
      refl known bob_pin (omega arith) refl wrapped forwarded
