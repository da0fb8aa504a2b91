-- ===== src/Relay/Packet/RoundTrip.antt =====
-- relay.go: `WrapPacket` and `ParsePacket` are inverse.
use network_project.Prelude.{
  take-append, drop-append, ℕ, ◌+◌, ◌≤◌, ◌<◌, ◌≡◌, ap, ◌∙◌, ◌∷◌, ◌++◌, arith, Bytes, length, ok,
  put_u16, u16_at, length-append,
}
use network_project.Relay.Packet.{
  validate_name, wrap_packet, parse_destination, parse_packet, magic, max_header_len,
}

-- the names that `validateName` lets through
abbrev pub IsName : Bytes → Type 0
IsName id = (0 < length id) × (length id ≤ 64)

pub wrap_packet-eq-ok :
    (src_id dst_id frame pkt : Bytes)
    → wrap_packet src_id dst_id frame ≡ ok pkt
    → IsName src_id
      × IsName dst_id
      × (pkt
          ≡ magic
            ∷ (put_u16 (length src_id)
                ++ (src_id ++ (put_u16 (length dst_id) ++ (dst_id ++ frame)))))
unfolding wrap_packet validate_name
wrap_packet-eq-ok src_id dst_id frame pkt h = ground arith

-- The header adds at most `MaxHeaderLen` bytes to the frame.
pub length-wrap_packet :
    (src_id dst_id frame pkt : Bytes)
    → wrap_packet src_id dst_id frame ≡ ok pkt
    → (length pkt ≡ 5 + length src_id + length dst_id + length frame)
      × (length pkt ≤ length frame + max_header_len)
length-wrap_packet src_id dst_id frame pkt h =
    let (s, d, e) = wrap_packet-eq-ok src_id dst_id frame pkt h in
    let n = ap (length {A = ℕ}) e in
    let p = length-append src_id (put_u16 (length dst_id) ++ (dst_id ++ frame)) in
    (omega (arith, length-append dst_id frame), omega (arith, length-append dst_id frame))

u16_at-put_u16 : (n : ℕ) (rest : Bytes) → n ≤ 64 → u16_at (put_u16 n ++ rest) ≡ n
u16_at-put_u16 n rest h = omega arith

parse_destination_lem :
    (src_id dst_id frame : Bytes)
    → IsName dst_id
    → parse_destination src_id (put_u16 (length dst_id) ++ (dst_id ++ frame))
      ≡ ok (record { src_id = src_id; dst_id = dst_id; frame = frame })
unfolding parse_destination
parse_destination_lem src_id dst_id frame h =
    rw (u16_at-put_u16 (length dst_id) (dst_id ++ frame) h.1) (
      ground
        (arith, length-append dst_id frame, take-append dst_id frame, drop-append dst_id frame))

parse_source :
    (src_id rest : Bytes)
    → IsName src_id
    → 3 ≤ length rest
    → parse_packet (magic ∷ (put_u16 (length src_id) ++ (src_id ++ rest)))
      ≡ parse_destination src_id rest
unfolding parse_packet
parse_source src_id rest h r =
    rw (u16_at-put_u16 (length src_id) (src_id ++ rest) h.1)
      (ground (arith, length-append src_id rest, take-append src_id rest, drop-append src_id rest))

-- `ParsePacket` reads back the names and the frame of every packet that `WrapPacket` builds.
pub parse_packet-wrap_packet :
    (src_id dst_id frame pkt : Bytes)
    → wrap_packet src_id dst_id frame ≡ ok pkt
    → parse_packet pkt ≡ ok (record { src_id = src_id; dst_id = dst_id; frame = frame })
parse_packet-wrap_packet src_id dst_id frame pkt h =
    let (s, d, e) = wrap_packet-eq-ok src_id dst_id frame pkt h in
    rw e (
      parse_source src_id (put_u16 (length dst_id) ++ (dst_id ++ frame)) s
        (omega (arith, length-append dst_id frame))
      ∙ parse_destination_lem src_id dst_id frame d)
