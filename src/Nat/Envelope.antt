-- ===== src/Nat/Envelope.antt =====
-- internal/nat/nat.go: the envelopes of the inside door. How an address is printed and resolved is
-- Go's, and a parameter.
pub mod RoundTrip
use network_project.Prelude.{
  ℕ, zero, suc, ◌+◌, ◌-◌, ◌*◌, ◌/◌, ◌%◌, ◌^◌, ◌≤◌, ◌<◌, ◌≡◌, refl, sym, ap, ◌∙◌, ◌≢◌, ◌↔◌, ◌⊎◌, inl,
  inr, Bool, true, false, not, ◌&&◌, ◌||◌, List, [], ◌∷◌, ◌++◌, map, Option, none, some, arith,
  Bytes, AllBytes, All, length, get_or, set, take, drop, replicate, ltb, leb, ◌==◌, if◌then◌else◌,
  Bool-cases, Option-cases, Result, ok, err, ◌>>=◌, ◌>>◌, fail_if, wrap, put_u16, u16_at, equal,
  equal_iff, equal_refl, length-append, ltb→lt, ltb→ge, lt→ltb, ge→ltb, ==_iff,
}
use network_project.Net.{UdpAddr}

abbrev pub outbound_magic : ℕ
outbound_magic = 0x52

abbrev pub inbound_magic : ℕ
inbound_magic = 0x53

abbrev pub max_envelope_name : ℕ
max_envelope_name = 1024

pub data EnvelopeError : Type 0 where
  empty_field field_too_long nil_address too_short bad_magic truncated bad_address : EnvelopeError

-- `PutUint16` of a length, as `appendU16(out, uint16(n))` cuts it
abbrev pub append_u16 : Bytes → ℕ → Bytes
append_u16 out v = out ++ put_u16 v

-- the checks of a length field, and of the bytes after it
unfoldable pub check_field : ℕ → Result EnvelopeError (Unit {0})
check_field n = do fail_if (n == 0) empty_field; fail_if (ltb max_envelope_name n) field_too_long

pub record Outbound : Type 0 where
  pub src_id : Bytes
  pub dst : UdpAddr
  pub frame : Bytes

module _ (addr_string : UdpAddr → Bytes) where
  -- `dst` is nil where it is `none`; a nil IP is the empty slice.
  unfoldable pub wrap_outbound : Bytes → Option UdpAddr → Bytes → Result EnvelopeError Bytes
  wrap_outbound src_id dst frame = do
    check_field (length src_id)
    elim dst [ none ↦ err nil_address | some d ↦ wrap_to src_id d frame ]
    where
      wrap_to : Bytes → UdpAddr → Bytes → Result EnvelopeError Bytes
      wrap_to src_id d frame = do
        fail_if (length d.ip == 0) nil_address
        let dst_str = addr_string d
        fail_if (ltb max_envelope_name (length dst_str)) field_too_long
        ok (
            append_u16 (append_u16 (outbound_magic ∷ []) (length src_id) ++ src_id) (length dst_str)
            ++ dst_str
            ++ frame)

  unfoldable pub wrap_inbound : UdpAddr → Bytes → Bytes
  wrap_inbound src payload =
      let s = addr_string src in append_u16 (inbound_magic ∷ []) (length s) ++ s ++ payload

module _ (resolve : Bytes → Option UdpAddr) where
  -- from the destination's length field on
  unfoldable pub unwrap_destination : Bytes → Bytes → Result EnvelopeError Outbound
  unwrap_destination src_id p = do
    let dst_len = u16_at p
    let p' = drop 2 p
    check_field dst_len
    fail_if (ltb (length p') dst_len) truncated
    elim (resolve (take dst_len p')) [
      | none ↦ err bad_address
      | some dst ↦ ok (record { src_id = src_id; dst = dst; frame = drop dst_len p' })
    ]

  unfoldable pub unwrap_outbound : Bytes → Result EnvelopeError Outbound
  unwrap_outbound pkt = do
    fail_if (ltb (length pkt) (1 + 2 + 1 + 2 + 1)) too_short
    fail_if (not (get_or pkt 0 0 == outbound_magic)) bad_magic
    let src_len = u16_at (drop 1 pkt)
    let p = drop 3 pkt
    check_field src_len
    fail_if (ltb (length p) (src_len + 2)) truncated
    unwrap_destination (take src_len p) (drop src_len p)

  unfoldable pub unwrap_inbound : Bytes → Result EnvelopeError (UdpAddr × Bytes)
  unwrap_inbound pkt = do
    fail_if (ltb (length pkt) (1 + 2 + 1)) too_short
    fail_if (not (get_or pkt 0 0 == inbound_magic)) bad_magic
    let src_len = u16_at (drop 1 pkt)
    check_field src_len
    let p = drop 3 pkt
    fail_if (ltb (length p) src_len) truncated
    elim (resolve (take src_len p)) [ none ↦ err bad_address | some src ↦ ok (src, drop src_len p) ]
