-- ===== src/Tests/Relays.antt =====
-- relay.go: a relay with one name pinned.
use network_project.Prelude.{
  ◌+◌, ◌*◌, ◌≤◌, ◌≡◌, refl, true, List, [], ◌∷◌, some, arith, Bytes, ok, equal,
}
use network_project.Net.{UdpAddr}
use network_project.Prelude.Assoc.{lookup, bytes_Eq}
use network_project.Prelude.Int.{pos}
use network_project.Relay.Packet.{parse_packet, parse_destination}
use network_project.Relay.Budget.{limit, second}
use network_project.Relay.Budget.Bounds.{Draw, granted, granted-le}
use network_project.Relay.Server.{Pin, Server, handle_packet}
use network_project.Relay.Server.Accounting.{CountsOnce, handle_packet-CountsOnce}
use network_project.Relay.Server.Pinning.{
  Holds, IsDelivery, handle_packet-Holds, handle_packet-IsDelivery,
}

abbrev pub alice : Bytes
alice = 97 ∷ []

abbrev pub home : UdpAddr
home = record { ip = 10 ∷ 0 ∷ 0 ∷ 1 ∷ []; port = 80; zone = [] }

abbrev pub elsewhere : UdpAddr
elsewhere = record { ip = 10 ∷ 0 ∷ 0 ∷ 2 ∷ []; port = 80; zone = [] }

abbrev pub addr_string : UdpAddr → Bytes
addr_string a = a.ip

abbrev pin : Pin
pin = record { addr = home; last_seen = 5 * second }

abbrev pub server : Server
server = record {
  cfg = record {
    pin_grace = 30 * second;
    max_pps = pos 300;
    max_bytes_ps = pos 1000;
    name_quota_bytes = pos 1000;
    global_max_pps = pos 5000;
    global_max_bytes_ps = pos 10000;
  };
  pins = (alice, pin) ∷ [];
  src_rate = [];
  src_bytes = [];
  name_bytes = [];
  global_rate = record { start = 0; count = 0 };
  global_bytes = record { start = 0; count = 0 };
  last_sweep = 5 * second;
  stats = record { wrapped = 0; forwarded = 0; dropped = 0; pinned_dropped = 0; rate_limited = 0 };
}

-- alice's name, sent from elsewhere, to herself
abbrev stolen : Bytes
stolen = 0x52 ∷ 0 ∷ 1 ∷ 97 ∷ 0 ∷ 1 ∷ 97 ∷ 7 ∷ []

parsed : parse_packet stolen ≡ ok (record { src_id = alice; dst_id = alice; frame = 7 ∷ [] })
unfolding parse_packet parse_destination
parsed = refl

pinned : lookup alice server.pins ≡ some pin
unfolding lookup equal
pinned = refl

handle_packet-CountsOnce_example :
    CountsOnce server.stats (handle_packet addr_string server stolen elsewhere (6 * second) true)
handle_packet-CountsOnce_example =
    handle_packet-CountsOnce addr_string server stolen elsewhere (6 * second) true

handle_packet-Holds_example :
    Holds alice pin
      (6 * second)
      (handle_packet addr_string server stolen elsewhere (6 * second) true).0
handle_packet-Holds_example =
    handle_packet-Holds addr_string server stolen elsewhere (6 * second) true alice pin pinned
      (omega arith)

handle_packet-IsDelivery_example :
    IsDelivery
      (record { src_id = alice; dst_id = alice; frame = 7 ∷ [] })
      home
      (6 * second)
      (handle_packet addr_string server stolen home (6 * second) true)
handle_packet-IsDelivery_example =
    handle_packet-IsDelivery addr_string server stolen home (6 * second) true
      (record { src_id = alice; dst_id = alice; frame = 7 ∷ [] }) parsed

-- alice has no window yet
abbrev draws : List Draw
draws =
    (record { key = 98 ∷ []; amount = 9; now = 8 })
    ∷ (record { key = alice; amount = 9; now = 9 })
    ∷ []

granted-le_example :
    granted alice (pos 10) [] (record { key = alice; amount = 4; now = 7 } ∷ draws) + 0
    ≤ limit (pos 10)
unfolding lookup
granted-le_example =
    granted-le draws alice 4 7 (pos 10) [] (omega arith) (omega arith)
      (omega arith, (omega arith, tt))
