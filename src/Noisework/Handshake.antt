-- ===== src/Noisework/Handshake.antt =====
-- noisework.go: `Initiator` and `Responder`, the two role machines of the XX handshake, and the
-- session that each ends with. The handshake state of github.com/flynn/noise is a parameter: its
-- messages answer `none` for an error, and its last message comes with two cipher states. A receiver
-- that is nil, or closed, is left out: no caller has one.
pub mod Phases
pub mod Agreement
pub mod Ends
use network_project.Prelude.{
  ℕ, zero, suc, ◌+◌, ◌-◌, ◌*◌, ◌/◌, ◌%◌, ◌^◌, ◌≤◌, ◌<◌, ◌≡◌, refl, sym, ap, ◌∙◌, ◌≢◌, ◌↔◌, ◌⊎◌, inl,
  inr, Bool, true, false, not, ◌&&◌, ◌||◌, List, [], ◌∷◌, ◌++◌, map, Option, none, some, arith,
  Bytes, AllBytes, All, length, get_or, set, take, drop, replicate, ltb, leb, ◌==◌, if◌then◌else◌,
  Bool-cases, if-rule, Option-cases, Result, ok, err, ◌>>=◌, ◌>>◌, fail_if, wrap, put_u16, u16_at,
  equal, equal_iff, equal_refl, Result-cases, length-append, take-append, drop-append, ltb→lt,
  ltb→ge, lt→ltb, ge→ltb, ==_iff,
}
use network_project.Noisework.Cipher.{Noise, CipherState}
use network_project.Noisework.Session.{Session, default_rekey_every}

abbrev pub key_size : ℕ
key_size = 32

pub record Keypair : Type 0 where
  pub public_key : Bytes
  pub private_key : Bytes

-- `NewHandshakeState` takes the randomness, the role, the prologue and the static keypair.
pub record NoiseXx (noise : Noise) : Type 1 where
  pub State : Type 0
  pub new_state : ℕ → Bool → Bytes → Keypair → Option State
  pub write_message :
      State → State × Option (Bytes × Option (CipherState noise) × Option (CipherState noise))
  pub read_message :
      State → Bytes → State × Option (Option (CipherState noise) × Option (CipherState noise))
  pub remote_static : State → Bytes

pub data Phase : Type 0 where
  at_start at_message1 at_message2 at_complete : Phase

abbrev pub is_phase : Phase → Phase → Bool
is_phase at_start at_start = true
is_phase at_message1 at_message1 = true
is_phase at_message2 at_message2 = true
is_phase at_complete at_complete = true
is_phase _ _ = false

pub data HandshakeError : Type 0 where
  wrong_phase message_failed unexpected_static no_cipher_states : HandshakeError

unfoldable pub valid_keypair : Keypair → Bool
valid_keypair kp = (length kp.private_key == key_size) && (length kp.public_key == key_size)

module _ (noise : Noise) (xx : NoiseXx noise) where
  open xx use {State, new_state, write_message, read_message, remote_static}

  -- `Session`, with the static key of the other end
  pub record Established : Type 0 where
    pub transport : Session noise
    pub static : Bytes

  pub record Initiator : Type 0 where
    pub state : State
    pub expected : Bytes
    pub session : Option Established
    pub phase : Phase

  pub record Responder : Type 0 where
    pub state : State
    pub session : Option Established
    pub phase : Phase

  abbrev pub fresh_session : Option (CipherState noise) → Option (CipherState noise) → Session noise
  fresh_session out in_ = record {
    send_state = out;
    recv_state = in_;
    send_count = 0;
    recv_count = 0;
    send_epoch = 0;
    recv_epoch = 0;
    rekey_every = default_rekey_every;
  }

  unfoldable pub new_initiator : ℕ → Keypair → Bytes → Bytes → Option Initiator
  new_initiator seed my_static peer_static prologue =
      if not (valid_keypair my_static)
      then none
      else if not (length peer_static == key_size)
      then none
      else elim (new_state seed true prologue my_static) [
        | none ↦ none
        | some st ↦
            some (record { state = st; expected = peer_static; session = none; phase = at_start })
      ]

  unfoldable pub message1 : Initiator → Initiator × Result HandshakeError Bytes
  message1 i =
      if not (is_phase i.phase at_start)
      then (i, err wrong_phase)
      else let (st, r) = write_message i.state in
        elim r [
          | none ↦ (record i { state = st }, err message_failed)
          | some (msg, _, _) ↦ (record i { state = st; phase = at_message1 }, ok msg)
        ]

  unfoldable pub read_message2 : Initiator → Bytes → Initiator × Result HandshakeError Established
  read_message2 i msg2 =
      if not (is_phase i.phase at_message1)
      then (i, err wrong_phase)
      else let (st, r) = read_message i.state msg2 in
        elim r [
          | none ↦ (record i { state = st }, err message_failed)
          | some _ ↦
              if not (equal (remote_static st) i.expected)
              then (record i { state = st }, err unexpected_static)
              else let empty : Established = record {
                transport = fresh_session none none;
                static = [];
              } in
                (record i { state = st; phase = at_message2; session = some empty }, ok empty)
        ]

  -- The session, which Go fills in where it stands, is answered with the message.
  unfoldable pub write_message3 :
      Initiator → Initiator × Result HandshakeError (Bytes × Established)
  write_message3 i =
      if not (is_phase i.phase at_message2)
      then (i, err wrong_phase)
      else let (st, r) = write_message i.state in
        elim r [
          | none ↦ (record i { state = st }, err message_failed)
          | some (msg, some send_cs, some recv_cs) ↦
              let s : Established = record {
                transport = fresh_session (some send_cs) (some recv_cs);
                static = remote_static st;
              } in
              (record i { state = st; session = some s; phase = at_complete }, ok (msg, s))
          | some _ ↦ (record i { state = st }, err no_cipher_states)
        ]

  unfoldable pub new_responder : ℕ → Keypair → Bytes → Option Responder
  new_responder seed my_static prologue =
      if not (valid_keypair my_static)
      then none
      else elim (new_state seed false prologue my_static) [
        | none ↦ none
        | some st ↦ some (record { state = st; session = none; phase = at_start })
      ]

  unfoldable pub read_message1 : Responder → Bytes → Responder × Result HandshakeError (Unit {0})
  read_message1 r msg1 =
      if not (is_phase r.phase at_start)
      then (r, err wrong_phase)
      else let (st, x) = read_message r.state msg1 in
        elim x [
          | none ↦ (record r { state = st }, err message_failed)
          | some _ ↦ (record r { state = st; phase = at_message1 }, ok tt)
        ]

  unfoldable pub message2 : Responder → Responder × Result HandshakeError Bytes
  message2 r =
      if not (is_phase r.phase at_message1)
      then (r, err wrong_phase)
      else let (st, x) = write_message r.state in
        elim x [
          | none ↦ (record r { state = st }, err message_failed)
          | some (msg, _, _) ↦ (record r { state = st; phase = at_message2 }, ok msg)
        ]

  -- The first cipher state carries what the initiator sends.
  unfoldable pub read_message3 : Responder → Bytes → Responder × Result HandshakeError Established
  read_message3 r msg3 =
      if not (is_phase r.phase at_message2)
      then (r, err wrong_phase)
      else let (st, x) = read_message r.state msg3 in
        elim x [
          | none ↦ (record r { state = st }, err message_failed)
          | some (some init_send, some init_recv) ↦
              let s : Established = record {
                transport = fresh_session (some init_recv) (some init_send);
                static = remote_static st;
              } in
              (record r { state = st; session = some s; phase = at_complete }, ok s)
          | some _ ↦ (record r { state = st }, err no_cipher_states)
        ]
