-- ===== src/Protocol.antt =====
-- internal/protocol/protocol.go: the control messages, and the bounded line reader.
pub mod Reading
use network_project.Prelude.{
  ℕ, zero, suc, ◌+◌, ◌-◌, ◌*◌, ◌/◌, ◌%◌, ◌^◌, ◌≤◌, ◌<◌, ◌≡◌, refl, sym, ap, ◌∙◌, ◌≢◌, ◌↔◌, ◌⊎◌, inl,
  inr, Bool, true, false, not, ◌&&◌, ◌||◌, List, [], ◌∷◌, ◌++◌, map, Option, none, some, arith,
  Bytes, AllBytes, All, length, get_or, set, take, drop, replicate, ltb, leb, ◌==◌, if◌then◌else◌,
  Bool-cases, Option-cases, Result, ok, err, ◌>>=◌, ◌>>◌, fail_if, wrap, put_u16, u16_at, equal,
  equal_iff, equal_refl, length-append, ltb→lt, ltb→ge, lt→ltb, ge→ltb, ==_iff,
}

abbrev pub max_control_line : ℕ
max_control_line = 64 * 1024

pub data MessageType : Type 0 where
  register peer_list query query_result error_type other_type : MessageType

pub record PeerInfo : Type 0 where
  pub id : Bytes
  pub pub_key : Bytes
  pub endpoints : List Bytes

-- the texts that the coordinator answers a refused register with
pub data Refusal : Type 0 where
  id_required id_too_long too_many_endpoints endpoint_too_long : Refusal
  key_not_authenticated other_key registry_full : Refusal

-- `msg` is the refusal that its text says; what is absent is zero, as in Go.
pub record Message : Type 0 where
  pub kind : MessageType
  pub id : Bytes
  pub pub_key : Bytes
  pub endpoints : List Bytes
  pub peers : List PeerInfo
  pub msg : Option Refusal
  pub count : ℕ
  pub total : ℕ
  pub up : ℕ

abbrev pub blank : MessageType → Message
blank kind = record {
  kind = kind;
  id = [];
  pub_key = [];
  endpoints = [];
  peers = [];
  msg = none;
  count = 0;
  total = 0;
  up = 0;
}

pub data ReadError : Type 0 where
  eof_error line_too_long buffer_full : ReadError

-- `bufio.Reader.ReadSlice('\\n')` with a buffer of `size` bytes, over the bytes left in the stream:
-- what it returns, its error, and what is left.
unfoldable pub read_slice : ℕ → Bytes → Bytes × Option ReadError × Bytes
read_slice zero bs = ([], some buffer_full, bs)
read_slice (suc size) [] = ([], some eof_error, [])
read_slice (suc size) (b ∷ bs) =
    let (line, e, rest) = read_slice size bs in
    if b == 10 then (b ∷ [], none, bs) else (b ∷ line, e, rest)

-- The loop of `ReadLine`, with as many rounds as are given; `none` is running out of them. It returns
-- the chunk that ends the line, and not those before it.
unfoldable pub read_line_from : ℕ → ℕ → ℕ → Bytes → Option (Bytes × Option ReadError × Bytes)
read_line_from zero size total bs = none
read_line_from (suc rounds) size total bs =
    let (line, e, rest) = read_slice size bs in
    let total' = total + length line in
    let on = read_line_from rounds size total' rest in
    if ltb max_control_line total' then some ([], some line_too_long, rest) else elim e [
      | none ↦ some (line, none, rest)
      | some buffer_full ↦ on
      | some other ↦ some (line, some other, rest)
    ]

-- Each round reads a full buffer, and the total stops them.
unfoldable pub read_line : ℕ → Bytes → Option (Bytes × Option ReadError × Bytes)
read_line size bs = read_line_from (max_control_line + 2) size 0 bs
