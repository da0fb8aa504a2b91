-- ===== src/Stun.antt =====
-- internal/stun/stun.go: binding requests and responses. A nil IP is the empty slice; the transaction
-- id is an argument, and the datagrams that a socket reads are a list.
pub mod Decoding
pub mod RoundTrip
use network_project.Prelude.{
  ℕ, zero, suc, ◌+◌, ◌-◌, ◌*◌, ◌/◌, ◌%◌, ◌^◌, ◌≤◌, ◌<◌, ◌≡◌, refl, sym, ap, ◌∙◌, ◌≢◌, ◌↔◌, ◌⊎◌, inl,
  inr, Bool, true, false, not, ◌&&◌, ◌||◌, List, [], ◌∷◌, ◌++◌, map, Option, none, some, arith,
  Bytes, AllBytes, All, length, get_or, set, take, drop, replicate, ltb, leb, ◌==◌, if◌then◌else◌,
  Bool-cases, if-rule, Option-cases, Result, ok, err, ◌>>=◌, ◌>>◌, fail_if, wrap, put_u16, u16_at,
  put_u32, u32_at, equal, equal_iff, equal_refl, Result-cases, length-append, take-append,
  drop-append, ltb→lt, ltb→ge, lt→ltb, ge→ltb, ==_iff,
}
use Prim.Native.Nat.{bit_xor}
use network_project.Net.{UdpAddr, to4, to16}

abbrev pub binding_request : ℕ
binding_request = 0x0001

abbrev pub binding_response : ℕ
binding_response = 0x0101

abbrev pub attr_xor_mapped_address : ℕ
attr_xor_mapped_address = 0x0020

abbrev pub magic_cookie : ℕ
magic_cookie = 0x2112A442

abbrev pub header_len : ℕ
header_len = 20

abbrev pub xor_port_mask : ℕ
xor_port_mask = 0x2112

pub data StunError : Type 0 where
  too_short wrong_type bad_cookie nil_source unsupported_address : StunError
  truncated truncated_attribute no_attribute : StunError
  short_value bad_reserved truncated_address unsupported_family : StunError

-- `copy` into the twelve bytes after the cookie
unfoldable pub stun_header : ℕ → ℕ → Bytes → Bytes
stun_header typ len txid =
    put_u16 typ ++ (put_u16 len ++ (put_u32 magic_cookie ++ take 12 (txid ++ replicate 12 0)))

unfoldable pub encode_binding_request : Bytes → Bytes
encode_binding_request txid = stun_header binding_request 0 txid

unfoldable pub split_address : Bytes → Result StunError (ℕ × Bytes)
split_address ip = elim (to4 ip) [
  | some v4 ↦ ok (1, v4)
  | none ↦ elim (to16 ip) [ some v6 ↦ ok (2, v6) | none ↦ err unsupported_address ]
]

-- byte by byte; the key is as long as the bytes, at least
unfoldable pub xor_with : Bytes → Bytes → Bytes
xor_with (x ∷ xs) (k ∷ ks) = bit_xor x k ∷ xor_with xs ks
xor_with _ _ = []

-- the cookie and the transaction id of a message
abbrev pub xor_key : Bytes → Bytes
xor_key pkt = take 16 (drop 4 pkt)

-- the response to a request that has been checked
unfoldable pub response : Bytes → ℕ → ℕ × Bytes → Bytes
response pkt port (family, addr) =
    let attr_len = 4 + length addr in
    let hdr = stun_header binding_response (4 + attr_len) (take 12 (drop 8 pkt)) in
    hdr
    ++ (put_u16 attr_xor_mapped_address
        ++ (put_u16 attr_len
            ++ (0
                ∷ family
                ∷ (put_u16 (bit_xor (port % 2 ^ 16) xor_port_mask)
                    ++ xor_with addr (xor_key hdr)))))

unfoldable pub handle_binding_request : Bytes → Option UdpAddr → Result StunError Bytes
handle_binding_request pkt src = do
  fail_if (ltb (length pkt) header_len) too_short
  fail_if (not (u16_at pkt == binding_request)) wrong_type
  fail_if (not (u32_at (drop 4 pkt) == magic_cookie)) bad_cookie
  elim src [ none ↦ err nil_source | some a ↦ answer_to a ]
  where
    answer_to : UdpAddr → Result StunError Bytes
    answer_to a = do
      fail_if (length a.ip == 0) nil_source
      split ← split_address a.ip
      ok (response pkt a.port split)

-- an address of `n` bytes, decoded
abbrev pub address_of : ℕ → ℕ → Bytes → Bytes → Result StunError UdpAddr
address_of n port xaddr key =
    if ltb (length xaddr) n
    then err truncated_address
    else ok (record { ip = xor_with (take n xaddr) key; port = port; zone = [] })

unfoldable pub by_family : ℕ → ℕ → Bytes → Bytes → Result StunError UdpAddr
by_family family port xaddr key =
    if family == 1
    then address_of 4 port xaddr key
    else if family == 2
    then address_of 16 port xaddr key
    else err unsupported_family

-- The key has its sixteen bytes: it is a part of the header.
unfoldable pub parse_xor_mapped_address : Bytes → Bytes → Result StunError UdpAddr
parse_xor_mapped_address v key = do
  fail_if (ltb (length v) 4) short_value
  fail_if (not (get_or v 0 0 == 0)) bad_reserved
  by_family (get_or v 1 0) (bit_xor (u16_at (drop 2 v)) xor_port_mask) (drop 4 v) key

-- the attribute and its padding to four bytes
abbrev pub attr_step : ℕ → ℕ
attr_step alen = 4 + (alen + 3) / 4 * 4

-- The loop over the attributes, with as many rounds as there are bytes.
unfoldable pub scan : ℕ → Bytes → Bytes → Result StunError UdpAddr
scan zero attrs key = err no_attribute
scan (suc rounds) attrs key =
    let alen = u16_at (drop 2 attrs) in
    let rest = scan rounds (drop (attr_step alen) attrs) key in
    if ltb (length attrs) 4
    then err no_attribute
    else if ltb (length attrs) (4 + alen)
    then err truncated_attribute
    else if u16_at attrs == attr_xor_mapped_address
    then parse_xor_mapped_address (take alen (drop 4 attrs)) key
    else if ltb (length attrs) (attr_step alen)
    then err no_attribute
    else rest

unfoldable pub decode_xor_mapped_address : Bytes → Result StunError UdpAddr
decode_xor_mapped_address pkt = do
  fail_if (ltb (length pkt) header_len) too_short
  fail_if (not (u16_at pkt == binding_response)) wrong_type
  fail_if (not (u32_at (drop 4 pkt) == magic_cookie)) bad_cookie
  let msg_len = u16_at (drop 2 pkt)
  fail_if (ltb (length pkt) (header_len + msg_len)) truncated
  scan (suc msg_len) (take msg_len (drop header_len pkt)) (xor_key pkt)

-- The loop of `ResolvePublicAddr`, over the datagrams that come in before the deadline.
unfoldable pub resolve_public_addr : Bytes → List Bytes → Option UdpAddr
resolve_public_addr txid [] = none
resolve_public_addr txid (pkt ∷ pkts) =
    let rest = resolve_public_addr txid pkts in
    elim (decode_xor_mapped_address pkt) [
      | err _ ↦ rest
      | ok addr ↦
          if leb header_len (length pkt) && equal (take 12 (drop 8 pkt)) txid
          then some addr
          else rest
    ]
