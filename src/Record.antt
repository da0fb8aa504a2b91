-- ===== src/Record.antt =====
-- internal/record/record.go: the framing of the data plane, [1B type][2B length BE][payload].
-- A byte slice is a list of numbers, and a reader is the list of the bytes that it has yet to give.
pub mod RoundTrip
use network_project.Prelude.{
  ℕ, ◌+◌, ◌-◌, ◌≤◌, ◌<◌, ◌≡◌, List, [], ◌∷◌, ◌++◌, Option, none, some, Bytes, length, take, drop,
  get_or, put_u16, u16_at, ltb, ◌==◌, if◌then◌else◌, Result, ok, err, ◌>>=◌, ◌>>◌, fail_if, wrap,
}

abbrev pub type_hs1 : ℕ
type_hs1 = 1

abbrev pub type_hs2 : ℕ
type_hs2 = 2

abbrev pub type_hs3 : ℕ
type_hs3 = 3

abbrev pub type_probe : ℕ
type_probe = 4

abbrev pub type_data : ℕ
type_data = 5

abbrev pub header_len : ℕ
header_len = 3

abbrev pub max_payload_len : ℕ
max_payload_len = 65535

pub data ParseError : Type 0 where
  too_short oversized trailing : ParseError

-- `none` is the panic on a payload that the length field cannot represent.
unfoldable pub frame : ℕ → Bytes → Option Bytes
frame t payload =
    if ltb max_payload_len (length payload)
    then none
    else some (t ∷ (put_u16 (length payload) ++ payload))

unfoldable pub parse : Bytes → Result ParseError (ℕ × Bytes)
parse datagram = do
  fail_if (ltb (length datagram) header_len) too_short
  let t = get_or datagram 0 0
  let n = u16_at (drop 1 datagram)
  fail_if (ltb (length datagram - header_len) n) oversized
  fail_if (ltb (header_len + n) (length datagram)) trailing
  ok (t, take n (drop header_len datagram))

-- `io.EOF` and `io.ErrUnexpectedEOF`
pub data ReadError : Type 0 where
  eof unexpected_eof : ReadError

-- `io.ReadFull` into a buffer of `n` bytes: the bytes read and what the reader still holds.
unfoldable pub read_full : ℕ → Bytes → Result ReadError (Bytes × Bytes)
read_full n source =
    if ltb (length source) n
    then err (if length source == 0 then eof else unexpected_eof)
    else ok (take n source, drop n source)

pub data FrameError : Type 0 where
  read_header read_payload : ReadError → FrameError

unfoldable pub read_frame : Bytes → Result FrameError ((ℕ × Bytes) × Bytes)
read_frame source = do
  (hdr, source1) ← wrap read_header (read_full header_len source)
  let t = get_or hdr 0 0
  let n = u16_at (drop 1 hdr)
  (payload, source2) ← wrap read_payload (read_full n source1)
  ok ((t, payload), source2)
