-- ===== src/Relay/Server.antt =====
-- relay.go: the server's state and `handlePacket`. The lock makes each packet one step; the clock, and
-- whether the socket takes the write, are arguments. The formatted address, which only serves
-- as a map key, is a parameter. The uint64 counters wrap.
mod Cases
pub mod Accounting
pub mod Pinning
use network_project.Prelude.{
  ℕ, ◌+◌, ◌-◌, ◌*◌, ◌%◌, ◌^◌, Bool, true, false, not, ◌&&◌, List, [], ◌∷◌, Option, none, some,
  Bytes, length, ltb, leb, ◌==◌, if◌then◌else◌, equal, Result, ok, err,
}
use network_project.Prelude.Assoc.{lookup, insert, sweep, bytes_Eq}
use network_project.Prelude.Int.{ℤ, pos, negsuc}
use network_project.Net.{UdpAddr, ip_equal}
use network_project.Relay.Packet.{Packet, parse_packet, wrap_packet}
use network_project.Relay.Budget.{Counter, Counters, second, take_global, take}

-- The caps are `int`s, and zero ones stand for the defaults. `PinGrace` is in nanoseconds.
pub record Config : Type 0 where
  pub pin_grace : ℕ
  pub max_pps : ℤ
  pub max_bytes_ps : ℤ
  pub name_quota_bytes : ℤ
  pub global_max_pps : ℤ
  pub global_max_bytes_ps : ℤ

abbrev or_default : ℤ → ℕ → ℤ
or_default (pos n) d = if n == 0 then pos d else pos n
or_default (negsuc n) d = negsuc n

unfoldable pub fill_defaults : Config → Config
fill_defaults c = record {
  pin_grace = if c.pin_grace == 0 then 30 * second else c.pin_grace;
  max_pps = or_default c.max_pps 300;
  max_bytes_ps = or_default c.max_bytes_ps (128 * 2 ^ 10);
  name_quota_bytes = or_default c.name_quota_bytes (256 * 2 ^ 10);
  global_max_pps = or_default c.global_max_pps 5000;
  global_max_bytes_ps = or_default c.global_max_bytes_ps (8 * 2 ^ 20);
}

pub record Pin : Type 0 where
  pub addr : UdpAddr
  pub last_seen : ℕ

pub record Stats : Type 0 where
  pub wrapped : ℕ
  pub forwarded : ℕ
  pub dropped : ℕ
  pub pinned_dropped : ℕ
  pub rate_limited : ℕ

pub record Server : Type 0 where
  pub cfg : Config
  pub pins : List (Bytes × Pin)
  pub src_rate : Counters
  pub src_bytes : Counters
  pub name_bytes : Counters
  pub global_rate : Counter
  pub global_bytes : Counter
  pub last_sweep : ℕ
  pub stats : Stats

-- the state that `New` builds around the socket
unfoldable pub new_server : Config → Server
unfolding fill_defaults
new_server cfg = record {
  cfg = fill_defaults cfg;
  pins = [];
  src_rate = [];
  src_bytes = [];
  name_bytes = [];
  global_rate = record { start = 0; count = 0 };
  global_bytes = record { start = 0; count = 0 };
  last_sweep = 0;
  stats = record { wrapped = 0; forwarded = 0; dropped = 0; pinned_dropped = 0; rate_limited = 0 };
}

abbrev pub inc : ℕ → ℕ
inc n = (n + 1) % 2 ^ 64

abbrev pub inc_wrapped : Server → Server
inc_wrapped s = let t = s.stats in record s { stats = record t { wrapped = inc t.wrapped } }

abbrev pub inc_forwarded : Server → Server
inc_forwarded s = let t = s.stats in record s { stats = record t { forwarded = inc t.forwarded } }

abbrev pub inc_dropped : Server → Server
inc_dropped s = let t = s.stats in record s { stats = record t { dropped = inc t.dropped } }

abbrev pub inc_pinned_dropped : Server → Server
inc_pinned_dropped s =
    let t = s.stats in record s { stats = record t { pinned_dropped = inc t.pinned_dropped } }

abbrev pub inc_rate_limited : Server → Server
inc_rate_limited s =
    let t = s.stats in record s { stats = record t { rate_limited = inc t.rate_limited } }

-- `addrEqual` on two endpoints that are not nil
unfoldable pub addr_equal : UdpAddr → UdpAddr → Bool
addr_equal a b =
    if not (a.port == b.port)
    then false
    else if not (ip_equal a.ip b.ip)
    then false
    else equal a.zone b.zone

abbrev pub is_stale : ℕ → Counter → Bool
is_stale now c = ltb (2 * second) (now - c.start)

abbrev pub is_idle : ℕ → ℕ → Pin → Bool
is_idle grace now p = ltb (2 * grace) (now - p.last_seen)

unfoldable pub maybe_sweep : Server → ℕ → Server
maybe_sweep s now =
    if leb (length s.src_rate + length s.src_bytes + length s.name_bytes + length s.pins) 4096
    then s
    else if ltb (now - s.last_sweep) second
    then s
    else record s {
      last_sweep = now;
      src_rate = sweep (is_stale now) s.src_rate;
      src_bytes = sweep (is_stale now) s.src_bytes;
      name_bytes = sweep (is_stale now) s.name_bytes;
      pins = sweep (is_idle s.cfg.pin_grace now) s.pins;
    }

-- A stage returns the server and whether the packet goes on.
unfoldable pub draw_global : Server → ℕ → ℕ → Server × Bool
draw_global s size now =
    let (rate, one) = take_global s.global_rate 1 s.cfg.global_max_pps now in
    let s1 = record s { global_rate = rate } in
    if not one
    then (s1, false)
    else (let (bytes, all) = take_global s1.global_bytes size s1.cfg.global_max_bytes_ps now in
        (record s1 { global_bytes = bytes }, all))

unfoldable pub pin_source : Server → Bytes → UdpAddr → ℕ → Server × Bool
pin_source s src_id addr now = elim (lookup src_id s.pins) [
  | none ↦
      (record s { pins = insert src_id (record { addr = addr; last_seen = now }) s.pins }, true)
  | some p ↦
      if addr_equal p.addr addr
      then (record s { pins = insert src_id (record p { last_seen = now }) s.pins }, true)
      else if ltb s.cfg.pin_grace (now - p.last_seen)
      then (
        record s { pins = insert src_id (record { addr = addr; last_seen = now }) s.pins },
        true,
      )
      else (s, false)
]

unfoldable pub draw_source : Server → Bytes → ℕ → ℕ → Server × Bool
draw_source s src_key size now =
    let (rate, one) = take s.src_rate src_key 1 s.cfg.max_pps now in
    let s1 = record s { src_rate = rate } in
    if not one
    then (s1, false)
    else (let (bytes, all) = take s1.src_bytes src_key size s1.cfg.max_bytes_ps now in
        (record s1 { src_bytes = bytes }, all))

-- A datagram written, with its destination.
pub record Datagram : Type 0 where
  pub dst : UdpAddr
  pub payload : Bytes

-- The write of `fwd` behind the lock; `sent` is whether the socket takes it.
unfoldable pub write_forward : Server → Packet → UdpAddr → Bool → Server × Option Datagram
write_forward s p dst sent = elim (wrap_packet p.src_id p.dst_id p.frame) [
  | err e ↦ (inc_dropped s, none)
  | ok fwd ↦
      if sent
      then (inc_forwarded s, some (record { dst = dst; payload = fwd }))
      else (inc_dropped s, none)
]

-- from `s.stats.Wrapped++` on
unfoldable pub forward : Server → Packet → ℕ → Bool → Server × Option Datagram
forward s p now sent = elim (lookup p.dst_id s.pins) [
  | none ↦ (inc_dropped s, none)
  | some dst ↦
      let (bytes, fits) = take s.name_bytes p.dst_id (length p.frame) s.cfg.name_quota_bytes now in
      let s1 = record s { name_bytes = bytes } in
      if fits then write_forward s1 p dst.addr sent else (inc_rate_limited s1, none)
]

module _ (addr_string : UdpAddr → Bytes) where
  unfoldable pub route : Server → Packet → ℕ → UdpAddr → ℕ → Bool → Server × Option Datagram
  route s p size src now sent =
      let (s1, within) = draw_global s size now in
      if not within
      then (inc_rate_limited s1, none)
      else let (s2, pinned) = pin_source s1 p.src_id src now in
        if not pinned
        then (inc_pinned_dropped s2, none)
        else let (s3, allowed) = draw_source s2 (addr_string src) size now in
          if not allowed then (inc_rate_limited s3, none) else forward (inc_wrapped s3) p now sent

  unfoldable pub handle_packet : Server → Bytes → UdpAddr → ℕ → Bool → Server × Option Datagram
  handle_packet s pkt src now sent = elim (parse_packet pkt) [
    | err e ↦ (inc_dropped s, none)
    | ok p ↦ route (maybe_sweep s now) p (length pkt) src now sent
  ]
