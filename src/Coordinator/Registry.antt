-- ===== src/Coordinator/Registry.antt =====
-- internal/coordinator/coordinator.go: the registry, the control connections, and every handler that
-- changes them. A connection is a number; what the coordinator writes is a list of messages, each with
-- the connection it goes to. JSON's encoding, and whether a write fails, are parameters.
pub mod Invariant
pub mod Steps
pub mod Pinning
pub mod Cleanup
use network_project.Prelude.{
  ℕ, zero, suc, ◌+◌, ◌-◌, ◌*◌, ◌/◌, ◌%◌, ◌^◌, ◌≤◌, ◌<◌, ◌≡◌, refl, sym, ap, ◌∙◌, ◌≢◌, ◌↔◌, ◌⊎◌, inl,
  inr, Bool, true, false, not, ◌&&◌, ◌||◌, List, [], ◌∷◌, ◌++◌, map, Option, none, some, arith,
  Bytes, AllBytes, All, length, get_or, set, take, drop, replicate, ltb, leb, ◌==◌, if◌then◌else◌,
  Bool-cases, Option-cases, Result, ok, err, ◌>>=◌, ◌>>◌, fail_if, wrap, put_u16, u16_at, equal,
  equal_iff, equal_refl, length-append, ltb→lt, ltb→ge, lt→ltb, ge→ltb, ==_iff,
}
use network_project.Prelude.Assoc.{nat_Eq, bytes_Eq, lookup, insert, delete}
use network_project.Protocol.{
  MessageType, register, peer_list, query, query_result, error_type, other_type, PeerInfo, Refusal,
  id_required, id_too_long, too_many_endpoints, endpoint_too_long, key_not_authenticated, other_key,
  registry_full, Message, blank,
}

abbrev pub max_id_len : ℕ
max_id_len = 64

abbrev pub max_endpoints_per_peer : ℕ
max_endpoints_per_peer = 2

abbrev pub max_endpoint_len : ℕ
max_endpoint_len = 255

abbrev pub max_registrations : ℕ
max_registrations = 512

abbrev pub max_control_line_len : ℕ
max_control_line_len = 2 ^ 20

pub record Registration : Type 0 where
  pub id : Bytes
  pub pub_key : Bytes
  pub endpoints : List Bytes
  pub owner : ℕ

-- `ctrl_conns` holds each control session by the network connection under it.
pub record Server : Type 0 where
  pub registrations : List (Bytes × Registration)
  pub clients : List (ℕ × Bytes)
  pub ctrl_conns : List (ℕ × ℕ)
  pub total_regs : ℕ
  pub started : ℕ

unfoldable pub new_server : ℕ → Server
new_server now = record {
  registrations = [];
  clients = [];
  ctrl_conns = [];
  total_regs = 0;
  started = now;
}

-- `s.clients[conn]`: absent reads as the empty string
abbrev pub client_id : Server → ℕ → Bytes
client_id s conn = elim (lookup conn s.clients) [ none ↦ [] | some id ↦ id ]

abbrev pub is_owner : Option Registration → ℕ → Bool
is_owner none conn = false
is_owner (some reg) conn = reg.owner == conn

unfoldable pub cleanup_conn : Server → ℕ → Server
cleanup_conn s conn =
    let id = client_id s conn in
    record s {
      registrations =
          if not (equal id []) && is_owner (lookup id s.registrations) conn
          then delete id s.registrations
          else s.registrations;
      clients = delete conn s.clients;
      ctrl_conns = delete conn s.ctrl_conns;
    }

-- the start of `handleClient`, and what follows a handshake that succeeds
unfoldable pub connect : Server → ℕ → Server
connect s conn = record s { clients = insert conn [] s.clients }

unfoldable pub accepted : Server → ℕ → Server
accepted s conn = record s { ctrl_conns = insert conn conn s.ctrl_conns }

abbrev pub endpoints_fit : List Bytes → Bool
endpoints_fit [] = true
endpoints_fit (ep ∷ eps) = if ltb max_endpoint_len (length ep) then false else endpoints_fit eps

unfoldable pub validate_registration : Message → Result Refusal (Unit {0})
validate_registration m = do
  fail_if (equal m.id []) id_required
  fail_if (ltb max_id_len (length m.id)) id_too_long
  fail_if (ltb max_endpoints_per_peer (length m.endpoints)) too_many_endpoints
  fail_if (not (endpoints_fit m.endpoints)) endpoint_too_long

-- `hex.EncodeToString`
abbrev hex_digit : ℕ → ℕ
hex_digit d = if ltb d 10 then 48 + d else 87 + d

abbrev pub hex_encode : Bytes → Bytes
hex_encode [] = []
hex_encode (b ∷ bs) = hex_digit (b / 16) ∷ hex_digit (b % 16) ∷ hex_encode bs

abbrev pub peers_of : List (Bytes × Registration) → List PeerInfo
peers_of [] = []
peers_of ((_, r) ∷ rs) =
    record { id = r.id; pub_key = r.pub_key; endpoints = r.endpoints } ∷ peers_of rs

-- `time.Since(s.started) / time.Second`, in nanoseconds
unfoldable pub registry_snapshot : Server → ℕ → Message
registry_snapshot s now = record (blank query_result) {
  count = length s.registrations;
  total = s.total_regs;
  up = (now - s.started) / 1000000000;
  peers = peers_of s.registrations;
}

abbrev pub Writes : Type 0
Writes = List (ℕ × Message)

-- the checks of a register that read the registry
unfoldable pub admit : Server → Message → Result Refusal (Unit {0})
admit s m = elim (lookup m.id s.registrations) [
  | some cur ↦ fail_if (not (equal cur.pub_key []) && not (equal cur.pub_key m.pub_key)) other_key
  | none ↦ fail_if (leb max_registrations (length s.registrations)) registry_full
]

unfoldable pub enter : Server → ℕ → Message → Server
enter s conn m = record s {
  registrations =
      insert m.id (record { id = m.id; pub_key = m.pub_key; endpoints = m.endpoints; owner = conn })
        s.registrations;
  clients = insert conn m.id s.clients;
  total_regs = s.total_regs + 1;
}

-- The checks of a register, in their order.
unfoldable pub checked : Server → Bytes → Message → Result Refusal (Unit {0})
checked s peer_static m = do
  validate_registration m
  fail_if (not (equal (hex_encode peer_static) m.pub_key)) key_not_authenticated
  admit s m

module _ (encode_line : Message → Option Bytes) where
  -- `writeMsg`; the error of the write is dropped
  unfoldable pub write_msg : Server → ℕ → Message → Writes
  write_msg s conn m = elim (encode_line m) [
    | none ↦ []
    | some line ↦ elim (lookup conn s.ctrl_conns) [ none ↦ [] | some c ↦ (c, m) ∷ [] ]
  ]

  module _ (write_fails : ℕ → Message → Bool) where
    -- the loop of `broadcast`; a failed write evicts its connection
    unfoldable pub write_all : List (ℕ × ℕ) → Message → Server → Server × Writes
    write_all [] m s = (s, [])
    write_all ((_, c) ∷ cs) m s =
        let failed = write_fails c m in
        let s1 = if failed then cleanup_conn s c else s in
        let (s2, w) = write_all cs m s1 in (s2, if failed then w else (c, m) ∷ w)

    unfoldable pub broadcast : Server → Message → Server × Writes
    broadcast s m = elim (encode_line m) [
      | none ↦ (s, [])
      | some line ↦
          if ltb max_control_line_len (length line) then (s, []) else write_all s.ctrl_conns m s
    ]

    -- a round of the loop of `handleClient` on a decoded message
    unfoldable pub handle_register : Server → ℕ → Bytes → Message → Server × Writes
    handle_register s conn peer_static m = elim (checked s peer_static m) [
      | err e ↦ (s, write_msg s conn (record (blank error_type) { msg = some e }))
      | ok _ ↦
          let s' = enter s conn m in
          broadcast s' (record (blank peer_list) { peers = peers_of s'.registrations })
    ]

    unfoldable pub handle_message : Server → ℕ → ℕ → Bytes → Message → Server × Writes
    handle_message s now conn peer_static m = elim m.kind [
      | register ↦ handle_register s conn peer_static m
      | query ↦ (s, write_msg s conn (registry_snapshot s now))
      | _ ↦ (s, [])
    ]
