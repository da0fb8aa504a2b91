-- ===== src/Tun/Buffer.antt =====
-- internal/tun/fake.go: `BufferDevice`, a queue of packets. A read that would wait is `none`.
pub mod Fifo
use network_project.Prelude.{
  ℕ, zero, suc, ◌+◌, ◌-◌, ◌*◌, ◌/◌, ◌%◌, ◌^◌, ◌≤◌, ◌<◌, ◌≡◌, refl, sym, ap, ◌∙◌, ◌≢◌, ◌↔◌, ◌⊎◌, inl,
  inr, Bool, true, false, not, ◌&&◌, ◌||◌, List, [], ◌∷◌, ◌++◌, map, Option, none, some, arith,
  Bytes, AllBytes, All, length, get_or, set, take, drop, replicate, ltb, leb, ◌==◌, if◌then◌else◌,
  Bool-cases, if-rule, Option-cases, Result, ok, err, ◌>>=◌, ◌>>◌, fail_if, wrap, put_u16, u16_at,
  put_u32, u32_at, equal, equal_iff, equal_refl, Result-cases, length-append, take-append,
  drop-append, ltb→lt, ltb→ge, lt→ltb, ge→ltb, ==_iff,
}

abbrev pub default_mtu : ℕ
default_mtu = 1500

pub data DeviceError : Type 0 where
  end_of_file device_closed : DeviceError

pub record BufferDevice : Type 0 where
  pub name : Bytes
  pub mtu : ℕ
  pub buf : List Bytes
  pub closed : Bool

-- An `mtu` that is not positive is 0 here.
unfoldable pub new_buffer_device : Bytes → ℕ → BufferDevice
new_buffer_device name mtu = record {
  name = name;
  mtu = if mtu == 0 then default_mtu else mtu;
  buf = [];
  closed = false;
}

unfoldable pub close : BufferDevice → BufferDevice
close d = record d { closed = true }

-- into a buffer of `n` bytes
unfoldable pub read : BufferDevice → ℕ → Option (BufferDevice × Result DeviceError Bytes)
read d n = elim d.buf [
  | [] ↦ if d.closed then some (d, err end_of_file) else none
  | pkt ∷ rest ↦ some (record d { buf = rest }, ok (take n pkt))
]

unfoldable pub write : BufferDevice → Bytes → BufferDevice × Result DeviceError ℕ
write d p =
    if d.closed
    then (d, err device_closed)
    else (record d { buf = d.buf ++ (p ∷ []) }, ok (length p))
