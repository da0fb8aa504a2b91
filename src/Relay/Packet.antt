-- ===== src/Relay/Packet.antt =====
-- relay.go: the relay header, [0x52][u16 src_len][src][u16 dst_len][dst][frame].
-- A name is the list of its bytes.
pub mod RoundTrip
use network_project.Prelude.{
  ℕ, zero, suc, ◌+◌, ◌-◌, ◌*◌, ◌/◌, ◌%◌, ◌^◌, ◌≤◌, ◌<◌, ◌≡◌, refl, sym, ap, ◌∙◌, ◌≢◌, ◌↔◌, ◌⊎◌, inl,
  inr, Bool, true, false, not, ◌&&◌, ◌||◌, List, [], ◌∷◌, ◌++◌, map, Option, none, some, arith,
  Bytes, AllBytes, All, length, get_or, set, take, drop, replicate, ltb, leb, ◌==◌, if◌then◌else◌,
  Bool-cases, Option-cases, Result, ok, err, ◌>>=◌, ◌>>◌, fail_if, wrap, put_u16, u16_at, equal,
  equal_iff, equal_refl, length-append, ltb→lt, ltb→ge, lt→ltb, ge→ltb, ==_iff,
}

abbrev pub magic : ℕ
magic = 0x52

abbrev pub max_name_len : ℕ
max_name_len = 64

abbrev pub max_header_len : ℕ
max_header_len = 1 + 2 + max_name_len + 2 + max_name_len

pub data PacketError : Type 0 where
  empty_name name_too_long short_packet bad_magic truncated : PacketError

unfoldable pub validate_name : Bytes → Result PacketError (Unit {0})
validate_name id = do
  fail_if (length id == 0) empty_name
  fail_if (ltb max_name_len (length id)) name_too_long

unfoldable pub wrap_packet : Bytes → Bytes → Bytes → Result PacketError Bytes
wrap_packet src_id dst_id frame = do
  validate_name src_id
  validate_name dst_id
  ok (
      magic
      ∷ (put_u16 (length src_id) ++ (src_id ++ (put_u16 (length dst_id) ++ (dst_id ++ frame)))))

pub record Packet : Type 0 where
  pub src_id : Bytes
  pub dst_id : Bytes
  pub frame : Bytes

-- from the destination's length field on
unfoldable pub parse_destination : Bytes → Bytes → Result PacketError Packet
parse_destination src_id p = do
  let dst_len = u16_at p
  let p' = drop 2 p
  fail_if (dst_len == 0) empty_name
  fail_if (ltb max_name_len dst_len) name_too_long
  fail_if (ltb (length p') dst_len) truncated
  ok (record { src_id = src_id; dst_id = take dst_len p'; frame = drop dst_len p' })

unfoldable pub parse_packet : Bytes → Result PacketError Packet
parse_packet pkt = do
  fail_if (ltb (length pkt) (1 + 2 + 1 + 2 + 1)) short_packet
  fail_if (not (get_or pkt 0 0 == magic)) bad_magic
  let src_len = u16_at (drop 1 pkt)
  let p = drop 3 pkt
  fail_if (src_len == 0) empty_name
  fail_if (ltb max_name_len src_len) name_too_long
  fail_if (ltb (length p) (src_len + 2)) truncated
  parse_destination (take src_len p) (drop src_len p)
