-- ===== src/Net.antt =====
-- What the program uses of Go's `net`: IP addresses and UDP endpoints as values.
use network_project.Prelude.{
  ℕ, Bool, false, ◌&&◌, [], ◌∷◌, Option, none, some, Bytes, length, take, drop, ◌==◌, if◌then◌else◌,
  equal,
}

-- `*net.UDPAddr`, where it is not nil. An address that no family fits is the empty slice.
pub record UdpAddr : Type 0 where
  pub ip : Bytes
  pub port : ℕ
  pub zone : Bytes

-- the prefix of an IPv4 address in its 16-byte form
abbrev pub v4_in_v6_prefix : Bytes
v4_in_v6_prefix = 0 ∷ 0 ∷ 0 ∷ 0 ∷ 0 ∷ 0 ∷ 0 ∷ 0 ∷ 0 ∷ 0 ∷ 255 ∷ 255 ∷ []

-- `IP.To4`: 4 bytes, or 16 bytes with the prefix
unfoldable pub to4 : Bytes → Option Bytes
to4 ip =
    if length ip == 4
    then some ip
    else if length ip == 16 && equal (take 12 ip) v4_in_v6_prefix
    then some (drop 12 ip)
    else none

-- `IP.To16`
unfoldable pub to16 : Bytes → Option Bytes
to16 ip =
    if length ip == 4
    then some (0 ∷ 0 ∷ 0 ∷ 0 ∷ 0 ∷ 0 ∷ 0 ∷ 0 ∷ 0 ∷ 0 ∷ 255 ∷ 255 ∷ ip)
    else if length ip == 16
    then some ip
    else none

-- `IP.Equal`: an IPv4 address equals its 16-byte form
unfoldable pub ip_equal : Bytes → Bytes → Bool
ip_equal a b =
    if length a == length b
    then equal a b
    else if length a == 4 && length b == 16
    then equal (take 12 b) v4_in_v6_prefix && equal a (drop 12 b)
    else if length a == 16 && length b == 4
    then equal (take 12 a) v4_in_v6_prefix && equal b (drop 12 a)
    else false
