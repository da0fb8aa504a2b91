-- ===== src/Peer/Data.antt =====
-- peer.go: the data path, `onData`, `encryptLocked` and `Send`. `none` is a panic of the replay
-- window, or of `record.Frame`.
pub mod Once
use network_project.Prelude.{
  ℕ, zero, suc, ◌+◌, ◌-◌, ◌*◌, ◌/◌, ◌%◌, ◌^◌, ◌≤◌, ◌<◌, ◌≡◌, refl, sym, ap, ◌∙◌, ◌≢◌, ◌↔◌, ◌⊎◌, inl,
  inr, Bool, true, false, not, ◌&&◌, ◌||◌, List, [], ◌∷◌, ◌++◌, map, Option, none, some, arith,
  Bytes, AllBytes, All, length, get_or, set, take, drop, replicate, ltb, leb, ◌==◌, if◌then◌else◌,
  Bool-cases, if-rule, Option-cases, Result, ok, err, ◌>>=◌, ◌>>◌, fail_if, wrap, put_u16, u16_at,
  equal, equal_iff, equal_refl, Result-cases, length-append, take-append, drop-append, ltb→lt,
  ltb→ge, lt→ltb, ge→ltb, ==_iff,
}
use network_project.Net.{UdpAddr}
use network_project.Noisework.Cipher.{Noise}
use network_project.Noisework.Session.{Session, SessionError, send, decrypt_at, max_plaintext_len}
use network_project.Relay.Packet.{max_header_len}
use network_project.Peer.Replay.{
  ReplayWindow, new_replay_window, replay_window_size_bits, check, commit,
}
use network_project.Peer.Disco.{
  DataPath, path_none, path_direct, path_relay, role_is_initiator, direct_attempt, relay_attempt,
  keepalive_interval, reestablish_interval, hs1_resend_interval, second,
}
use network_project.Peer.State.{
  hs1_max_per_sec, session_max_age, responder_handshake_timeout, recv_capacity, Installed,
  Handshakes, Output, direct, relayed, Peer, new_peer, close, set_direct_ep, send_frame,
  set_session,
}
use network_project.Record.{frame, type_data}

-- `binary.BigEndian.Uint64` of the first eight bytes; the caller checks that they are there
abbrev pub u64_at : Bytes → ℕ
u64_at (a ∷ b ∷ c ∷ d ∷ e ∷ f ∷ g ∷ h ∷ _) =
    ((((((a * 256 + b) * 256 + c) * 256 + d) * 256 + e) * 256 + f) * 256 + g) * 256 + h
u64_at _ = 0

abbrev pub put_u64 : ℕ → Bytes
put_u64 v =
    (v / 2 ^ 56 % 256)
    ∷ (v / 2 ^ 48 % 256)
    ∷ (v / 2 ^ 40 % 256)
    ∷ (v / 2 ^ 32 % 256)
    ∷ (v / 2 ^ 24 % 256)
    ∷ (v / 2 ^ 16 % 256)
    ∷ (v / 2 ^ 8 % 256)
    ∷ (v % 256)
    ∷ []

-- the buffered channel of 64 payloads; a full one drops
unfoldable pub offer : List Bytes → Bytes → List Bytes
offer recv plain =
    if length plain == 0
    then recv
    else if ltb (length recv) recv_capacity
    then recv ++ (plain ∷ [])
    else recv

pub data SendError : Type 0 where
  no_session payload_too_large no_endpoint : SendError
  session_error : SessionError → SendError

module _ (noise : Noise) (hs : Handshakes noise) where
  -- a frame that authenticated: the window commits, and the payload is handed on
  unfoldable pub deliver : Peer noise hs → ℕ → Bytes → ReplayWindow → Peer noise hs
  deliver p nonce plain replay = record p {
    bytes_rx = (p.bytes_rx + length plain) % 2 ^ 64;
    replay = replay;
    hs3_pending = false;
    recv = offer p.recv plain;
  }

  -- `DecryptAt` and what follows, on a nonce that the window lets pass
  unfoldable pub open_data : Peer noise hs → Installed noise → ℕ → Bytes → Option (Peer noise hs)
  open_data p sess nonce cipher =
      let r = decrypt_at noise sess.session nonce cipher in
      let p' = record p { sess = some (record sess { session = r.0 }) } in
      elim r.1 [
        | err _ ↦ some p'
        | ok plain ↦ elim (commit p.replay nonce) [
          | none ↦ none
          | some replay ↦ some (deliver p' nonce plain replay)
        ]
      ]

  unfoldable pub gate_data : Peer noise hs → Installed noise → ℕ → Bytes → Option (Peer noise hs)
  gate_data p sess nonce cipher = elim (check p.replay nonce) [
    | none ↦ none
    | some fresh ↦ if fresh then open_data p sess nonce cipher else some p
  ]

  unfoldable pub on_data : Peer noise hs → Bytes → Option (Peer noise hs)
  on_data p payload = if p.closed || p.recv_closed then some p else elim p.sess [
    | none ↦ some p
    | some sess ↦
        if ltb (length payload) 8
        then some p
        else gate_data p sess (u64_at payload) (drop 8 payload)
  ]

  abbrev pub limit_on : DataPath → ℕ
  limit_on path_relay = max_plaintext_len - max_header_len
  limit_on _ = max_plaintext_len

  abbrev pub DataFrame : Type 0
  DataFrame = Result SendError (Bytes × DataPath × Option UdpAddr)

  -- `sess.Send` on a payload that fits, and the frame
  unfoldable pub seal_data :
      Peer noise hs → ℕ → Installed noise → Bytes → Option (Peer noise hs × DataFrame)
  seal_data p now sess payload =
      let r = send noise sess.session payload in
      let p' = record p { sess = some (record sess { session = r.0 }) } in
      elim r.1 [
        | err e ↦ some (p', err (session_error e))
        | ok (nonce, cipher) ↦ elim (frame type_data (put_u64 nonce ++ cipher)) [
          | none ↦ none
          | some wire ↦ some (
            record p' { last_sent = now; bytes_tx = (p.bytes_tx + length payload) % 2 ^ 64 },
            ok (wire, p.path, p.direct_ep),
          )
        ]
      ]

  unfoldable pub encrypt : Peer noise hs → ℕ → Bytes → Option (Peer noise hs × DataFrame)
  encrypt p now payload = elim p.sess [
    | none ↦ some (p, err no_session)
    | some sess ↦
        if ltb (limit_on p.path) (length payload)
        then some (p, err payload_too_large)
        else seal_data p now sess payload
  ]

  unfoldable pub sent_as : Peer noise hs → DataFrame → Result SendError Output
  sent_as p (err e) = err e
  sent_as p (ok (wire, mode, dst)) = elim (send_frame noise hs p mode dst wire) [
    | none ↦ err no_endpoint
    | some out ↦ ok out
  ]

  unfoldable pub send_payload :
      Peer noise hs → ℕ → Bytes → Option (Peer noise hs × Result SendError Output)
  send_payload p now payload = elim (encrypt p now payload) [
    | none ↦ none
    | some (p', r) ↦ some (p', sent_as p' r)
  ]
