-- ===== src/Tests/Boxes.antt =====
-- nat.go: a restricted box.
use network_project.Prelude.{
  ℕ, ◌≡◌, refl, inr, Bool, true, false, List, [], ◌∷◌, ◌++◌, Option, none, some, arith, Bytes,
  equal,
}
use network_project.Net.{UdpAddr, to4, to16}
use network_project.Prelude.Assoc.{bytes_Eq, lookup, insert}
use network_project.Nat.Envelope.{unwrap_outbound, unwrap_destination, check_field}
use network_project.Nat.Box.{
  address_restricted, Config, cleanup, reclaim_expired, key_Eq, Box, new_box, key_beq,
  last_seen_expired,
}
use network_project.Nat.Box.Traffic.{
  ip_key, flow_key, fresh_entry, open_mapping, outbound_socket, forward_outbound, handle_outbound,
  handle_inbound, lookup_inbound,
}
use network_project.Nat.Box.Contacts.{Any, Allows}
use network_project.Nat.Box.Admission.{requested, History, opened, went_out, History-admits}
use network_project.Nat.Box.Counting.{CountsOnce, handle_outbound-CountsOnce}
use network_project.Nat.Box.Kept.{InTime}
use network_project.Nat.Box.Living.{Living, asked_for, then_in, then_cleaned, Living-admits}

abbrev host : UdpAddr
host = record { ip = 10 ∷ 0 ∷ 0 ∷ 1 ∷ []; port = 80; zone = [] }

abbrev remote : UdpAddr
remote = record { ip = 10 ∷ 0 ∷ 0 ∷ 2 ∷ []; port = 90; zone = [] }

abbrev ip_string : Bytes → Bytes
ip_string ip = ip

abbrev port_of : Option ℕ → ℕ
port_of c = 0

abbrev addr_text : UdpAddr → Bytes
addr_text a = a.ip

abbrev resolve : Bytes → Option UdpAddr
resolve b = some remote

abbrev write_fails : ℕ → UdpAddr → Bytes → Bool
write_fails c a b = false

abbrev cfg : Config
cfg = record {
  behavior = address_restricted;
  public_ip = 10 ∷ 9 ∷ 9 ∷ 9 ∷ [];
  private_host = host;
  mapping_ttl = 50;
}

-- an envelope from the host to the remote
abbrev envelope : Bytes
envelope = 0x52 ∷ 0 ∷ 1 ∷ 97 ∷ 0 ∷ 1 ∷ 104 ∷ 7 ∷ 8 ∷ []

abbrev box : Box
box = new_box addr_text cfg (some 3)

abbrev used : Box
used = (handle_outbound ip_string port_of addr_text resolve write_fails box 1 none envelope host).0

handle_outbound-CountsOnce_example :
    CountsOnce box.stats
      (handle_outbound ip_string port_of addr_text resolve write_fails box 1 none envelope host)
handle_outbound-CountsOnce_example =
    handle_outbound-CountsOnce ip_string port_of addr_text resolve write_fails box 1 none envelope
      host

abbrev sent : List UdpAddr
sent = requested ip_string port_of addr_text addr_text resolve box envelope host ++ []

past : History ip_string port_of addr_text addr_text resolve address_restricted sent used
past = went_out [] box write_fails 1 none envelope host (opened cfg (some 3) refl)

admitted : lookup_inbound ip_string used 2 3 remote ≡ true
unfolding lookup_inbound handle_outbound unwrap_outbound unwrap_destination check_field
    forward_outbound outbound_socket open_mapping fresh_entry flow_key ip_key to4 to16 new_box
    lookup insert equal last_seen_expired key_beq
admitted = refl

History-admits_example : Any (Allows ip_string address_restricted remote) sent
History-admits_example =
    History-admits ip_string port_of addr_text addr_text resolve address_restricted sent used 2 3
      remote past admitted

-- the remote from another port
abbrev other_port : UdpAddr
other_port = record { ip = 10 ∷ 0 ∷ 0 ∷ 2 ∷ []; port = 91; zone = [] }

asks : requested ip_string port_of addr_text addr_text resolve box envelope host ≡ remote ∷ []
unfolding requested unwrap_outbound unwrap_destination check_field new_box equal
asks = refl

-- the host asks for the remote at 1, a datagram comes in at 20, and the box is cleaned at 40
abbrev visited : Box
visited = (handle_inbound ip_string addr_text write_fails used 20 3 (7 ∷ []) remote).0

abbrev swept : Box
swept = cleanup visited 40

swept-InTime : InTime visited 1 40
unfolding handle_inbound lookup_inbound handle_outbound unwrap_outbound unwrap_destination
    check_field forward_outbound outbound_socket open_mapping fresh_entry flow_key ip_key to4 to16
    new_box lookup insert equal last_seen_expired key_beq
swept-InTime = inr (omega arith)

still-InTime : InTime swept 1 51
unfolding cleanup reclaim_expired handle_inbound lookup_inbound handle_outbound unwrap_outbound
    unwrap_destination check_field forward_outbound outbound_socket open_mapping fresh_entry
    flow_key ip_key to4 to16 new_box lookup insert equal last_seen_expired key_beq
still-InTime = inr (omega arith)

swept_past : Living ip_string port_of addr_text addr_text resolve address_restricted remote 1 swept
swept_past =
    then_cleaned 1 visited 40
      (then_in 1 used write_fails 20 3 (7 ∷ []) remote
        (asked_for [] box write_fails 1 none envelope host (opened cfg (some 3) refl) asks))
      swept-InTime

Living-admits_example : lookup_inbound ip_string swept 51 3 other_port ≡ true
Living-admits_example =
    Living-admits ip_string port_of addr_text addr_text resolve address_restricted remote 1 swept 51
      3 other_port refl swept_past still-InTime refl
