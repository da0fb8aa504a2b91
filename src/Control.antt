-- ===== src/Control.antt =====
-- internal/control/control.go: the encrypted control connection. A connection is its session and the
-- bytes that its reader will still be given; what is written is answered as bytes. Deadlines and the
-- errors of the socket are left out.
pub mod Channel
pub mod Messages
pub mod Opening
use network_project.Prelude.{
  ℕ, zero, suc, ◌+◌, ◌-◌, ◌*◌, ◌/◌, ◌%◌, ◌^◌, ◌≤◌, ◌<◌, ◌≡◌, refl, sym, ap, ◌∙◌, ◌≢◌, ◌↔◌, ◌⊎◌, inl,
  inr, Bool, true, false, not, ◌&&◌, ◌||◌, List, [], ◌∷◌, ◌++◌, map, Option, none, some, arith,
  Bytes, AllBytes, All, length, get_or, set, take, drop, replicate, ltb, leb, ◌==◌, if◌then◌else◌,
  Bool-cases, if-rule, Option-cases, Result, ok, err, ◌>>=◌, ◌>>◌, fail_if, wrap, put_u16, u16_at,
  put_u32, u32_at, equal, equal_iff, equal_refl, Result-cases, length-append, take-append,
  drop-append, ltb→lt, ltb→ge, lt→ltb, ge→ltb, ==_iff,
}
use network_project.Noisework.Cipher.{Noise}
use network_project.Noisework.Session.{Session, SessionError, send, decrypt_next}
use network_project.Noisework.Handshake.{
  NoiseXx, Keypair, HandshakeError, Established, Initiator, Responder, new_initiator, new_responder,
  message1, read_message2, write_message3, read_message1, message2, read_message3,
}
use network_project.Record.{ReadError, read_full}

abbrev pub max_msg_len : ℕ
max_msg_len = 2 ^ 20

-- "meshlink-v1-control"
abbrev pub prologue : Bytes
prologue =
    109 ∷ 101 ∷ 115 ∷ 104 ∷ 108 ∷ 105 ∷ 110 ∷ 107 ∷ 45 ∷ 118 ∷ 49 ∷ 45 ∷ 99 ∷ 111 ∷ 110 ∷ 116 ∷ 114
    ∷ 111 ∷ 108 ∷ []

pub data ControlError : Type 0 where
  no_role invalid_length : ControlError
  in_handshake : HandshakeError → ControlError
  in_read : ReadError → ControlError
  in_session : SessionError → ControlError

-- The length field wraps at 16 bits.
unfoldable pub write_raw : Bytes → Bytes
write_raw b = put_u16 (length b) ++ b

unfoldable pub read_raw : Bytes → Result ReadError (Bytes × Bytes)
read_raw source = do (hdr, source1) ← read_full 2 source; read_full (u16_at hdr) source1

module _ (noise : Noise) (xx : NoiseXx noise) where
  pub record Conn : Type 0 where
    pub sess : Session noise
    pub held : Bytes

  abbrev pub role {ℓ} : {A : Type ℓ} → Option A → Result ControlError A
  role none = err no_role
  role (some a) = ok a

  -- `Initiate`, given what the other end writes; with what it writes itself
  unfoldable pub initiate : ℕ → Keypair → Bytes → Bytes → Result ControlError (Conn × Bytes)
  initiate seed my_kp peer_static incoming = do
    i ← role (new_initiator noise xx seed my_kp peer_static prologue)
    let (i1, sent1) = message1 noise xx i
    msg1 ← wrap in_handshake sent1
    (msg2, incoming1) ← wrap in_read (read_raw incoming)
    let (i2, read2) = read_message2 noise xx i1 msg2
    _ ← wrap in_handshake read2
    let (i3, sent3) = write_message3 noise xx i2
    (msg3, sess) ← wrap in_handshake sent3
    ok (record { sess = sess.transport; held = incoming1 }, write_raw msg1 ++ write_raw msg3)

  -- `Accept`, likewise, with the static key of the agent
  unfoldable pub accept : ℕ → Keypair → Bytes → Result ControlError (Bytes × Conn × Bytes)
  accept seed my_kp incoming = do
    r ← role (new_responder noise xx seed my_kp prologue)
    (msg1, incoming1) ← wrap in_read (read_raw incoming)
    let (r1, read1) = read_message1 noise xx r msg1
    _ ← wrap in_handshake read1
    let (r2, sent2) = message2 noise xx r1
    msg2 ← wrap in_handshake sent2
    (msg3, incoming2) ← wrap in_read (read_raw incoming1)
    let (r3, read3) = read_message3 noise xx r2 msg3
    sess ← wrap in_handshake read3
    ok (sess.static, record { sess = sess.transport; held = incoming2 }, write_raw msg2)

  -- `WriteMsg`, with the bytes that it writes
  unfoldable pub write_msg : Conn → Bytes → Conn × Result ControlError Bytes
  write_msg c plaintext =
      let (s, r) = send noise c.sess plaintext in
      let c' = record c { sess = s } in
      elim r [
        | err e ↦ (c', err (in_session e))
        | ok (_, ct) ↦ (c', ok (put_u32 (length ct) ++ ct))
      ]

  -- `ReadMsg` once the length is known
  unfoldable pub read_body : Conn → ℕ → Bytes → Conn × Result ControlError Bytes
  read_body c n rest =
      if n == 0 || ltb max_msg_len n
      then (record c { held = rest }, err invalid_length)
      else elim (read_full n rest) [
        | err e ↦ (record c { held = [] }, err (in_read e))
        | ok (body, rest1) ↦
            let (s, r) = decrypt_next noise c.sess body in
            (record { sess = s; held = rest1 }, wrap in_session r)
      ]

  unfoldable pub read_msg : Conn → Conn × Result ControlError Bytes
  read_msg c = elim (read_full 4 c.held) [
    | err e ↦ (record c { held = [] }, err (in_read e))
    | ok (hdr, rest) ↦ read_body c (u32_at hdr) rest
  ]
