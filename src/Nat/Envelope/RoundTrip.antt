-- ===== src/Nat/Envelope/RoundTrip.antt =====
-- nat.go: the envelopes are undone by their readers.
use mathlib.Core.List.{append_assoc}
use network_project.Prelude.{
  ℕ, ◌≤◌, ◌<◌, ◌≡◌, ap, ◌∙◌, ◌∷◌, ◌++◌, Option, some, arith, Bytes, length, take, ok, put_u16,
  u16_at, length-append, take-append, drop-append,
}
use network_project.Net.{UdpAddr}
use network_project.Nat.Envelope.{
  wrap_outbound, wrap_inbound, unwrap_destination, unwrap_outbound, unwrap_inbound, check_field,
  outbound_magic, max_envelope_name,
}

-- a length that a field may have
abbrev IsField : Bytes → Type 0
IsField s = (0 < length s) × (length s ≤ max_envelope_name)

u16_at-put_u16 : (n : ℕ) (rest : Bytes) → n ≤ max_envelope_name → u16_at (put_u16 n ++ rest) ≡ n
u16_at-put_u16 n rest h = omega arith

-- An inbound envelope gives back the source and the payload, if the source's text resolves to it and
-- fits the field.
pub unwrap_inbound-wrap_inbound :
    (addr_string : UdpAddr → Bytes) (resolve : Bytes → Option UdpAddr) (src : UdpAddr)
    (payload : Bytes)
    → resolve (addr_string src) ≡ some src
    → 0 < length (addr_string src)
    → length (addr_string src) ≤ max_envelope_name
    → unwrap_inbound resolve (wrap_inbound addr_string src payload) ≡ ok (src, payload)
unfolding unwrap_inbound wrap_inbound check_field
unwrap_inbound-wrap_inbound addr_string resolve src payload r lo hi =
    let s = addr_string src in
    let n : u16_at (put_u16 (length s) ++ (s ++ payload)) ≡ length s =
      u16_at-put_u16 (length s) (s ++ payload) hi in
    let found : resolve (take (length s) (s ++ payload)) ≡ some src =
      ap resolve (take-append s payload) ∙ r in
    rw n (ground (arith, found, drop-append s payload, length-append s payload))

field_fits : (s : Bytes) → IsField s → check_field (length s) ≡ ok tt
unfolding check_field
field_fits s h = ground (arith, h)

unwrap_destination_lem :
    (resolve : Bytes → Option UdpAddr) (dst : UdpAddr) (src_id s frame : Bytes)
    → resolve s ≡ some dst
    → IsField s
    → unwrap_destination resolve src_id (put_u16 (length s) ++ (s ++ frame))
      ≡ ok (record { src_id = src_id; dst = dst; frame = frame })
unfolding unwrap_destination check_field
unwrap_destination_lem resolve dst src_id s frame r f =
    let n : u16_at (put_u16 (length s) ++ (s ++ frame)) ≡ length s =
      u16_at-put_u16 (length s) (s ++ frame) f.1 in
    let found : resolve (take (length s) (s ++ frame)) ≡ some dst =
      ap resolve (take-append s frame) ∙ r in
    rw n (ground (arith, found, f, drop-append s frame, length-append s frame))

unwrap_source :
    (resolve : Bytes → Option UdpAddr) (src_id rest : Bytes)
    → IsField src_id
    → 3 ≤ length rest
    → unwrap_outbound resolve (outbound_magic ∷ (put_u16 (length src_id) ++ (src_id ++ rest)))
      ≡ unwrap_destination resolve src_id rest
unfolding unwrap_outbound check_field
unwrap_source resolve src_id rest f r =
    let n : u16_at (put_u16 (length src_id) ++ (src_id ++ rest)) ≡ length src_id =
      u16_at-put_u16 (length src_id) (src_id ++ rest) f.1 in
    rw n (
      rw (take-append src_id rest)
        (rw (drop-append src_id rest) (ground (arith, r, f, length-append src_id rest))))

wrap_outbound_lem :
    (addr_string : UdpAddr → Bytes) (src_id : Bytes) (dst : UdpAddr) (frame pkt : Bytes)
    → wrap_outbound addr_string src_id (some dst) frame ≡ ok pkt
    → IsField src_id
      × (length (addr_string dst) ≤ max_envelope_name)
      × (pkt
          ≡ outbound_magic
            ∷ (put_u16 (length src_id)
                ++ (src_id ++ (put_u16 (length (addr_string dst)) ++ (addr_string dst ++ frame)))))
unfolding wrap_outbound check_field
wrap_outbound_lem addr_string src_id dst frame pkt h =
    let s = addr_string dst in
    let field = put_u16 (length s) in
    let flat : src_id ++ field ++ s ++ frame ≡ src_id ++ (field ++ (s ++ frame)) =
      append_assoc (src_id ++ field) s frame ∙ append_assoc src_id field (s ++ frame) in
    ground (arith, h, flat)

-- What `UnwrapOutbound` reads from an envelope of `WrapOutbound` is what was put into it, if the
-- destination's text is not empty and resolves to the destination.
pub unwrap_outbound-wrap_outbound :
    (addr_string : UdpAddr → Bytes) (resolve : Bytes → Option UdpAddr) (src_id : Bytes)
    (dst : UdpAddr) (frame pkt : Bytes)
    → resolve (addr_string dst) ≡ some dst
    → 0 < length (addr_string dst)
    → wrap_outbound addr_string src_id (some dst) frame ≡ ok pkt
    → unwrap_outbound resolve pkt ≡ ok (record { src_id = src_id; dst = dst; frame = frame })
unwrap_outbound-wrap_outbound addr_string resolve src_id dst frame pkt r lo h =
    let s = addr_string dst in
    let rest = put_u16 (length s) ++ (s ++ frame) in
    let (name, fits, e) = wrap_outbound_lem addr_string src_id dst frame pkt h in
    let long : 3 ≤ length rest = omega (arith, lo, length-append s frame) in
    ap (unwrap_outbound resolve) e
    ∙ unwrap_source resolve src_id rest name long
    ∙ unwrap_destination_lem resolve dst src_id s frame r (lo, fits)
