-- ===== src/Peer/Handshake.antt =====
-- peer.go: the handshake, its retries and its budget. Each handler takes the time, and the randomness
-- where it draws some, and answers with the peer and the frame that it sends, if it sends one; the
-- errors of sending are dropped there too. The outer `none` is a panic.
pub mod Identity
pub mod Frames
pub mod Authenticity
use network_project.Prelude.{
  ℕ, zero, suc, ◌+◌, ◌-◌, ◌*◌, ◌/◌, ◌%◌, ◌^◌, ◌≤◌, ◌<◌, ◌≡◌, refl, sym, ap, ◌∙◌, ◌≢◌, ◌↔◌, ◌⊎◌, inl,
  inr, Bool, true, false, not, ◌&&◌, ◌||◌, List, [], ◌∷◌, ◌++◌, map, Option, none, some, arith,
  Bytes, AllBytes, All, length, get_or, set, take, drop, replicate, ltb, leb, ◌==◌, if◌then◌else◌,
  Bool-cases, if-rule, Option-cases, Result, ok, err, ◌>>=◌, ◌>>◌, fail_if, wrap, put_u16, u16_at,
  equal, equal_iff, equal_refl, Result-cases, length-append, take-append, drop-append, ltb→lt,
  ltb→ge, lt→ltb, ge→ltb, ==_iff,
}
use network_project.Net.{UdpAddr}
use network_project.Noisework.Cipher.{Noise}
use network_project.Noisework.Session.{Session, SessionError, send, decrypt_at, max_plaintext_len}
use network_project.Relay.Packet.{max_header_len}
use network_project.Peer.Replay.{
  ReplayWindow, new_replay_window, replay_window_size_bits, check, commit,
}
use network_project.Peer.Disco.{
  DataPath, path_none, path_direct, path_relay, role_is_initiator, direct_attempt, relay_attempt,
  keepalive_interval, reestablish_interval, hs1_resend_interval, second,
}
use network_project.Peer.State.{
  hs1_max_per_sec, session_max_age, responder_handshake_timeout, recv_capacity, Installed,
  Handshakes, Output, direct, relayed, Peer, new_peer, close, set_direct_ep, send_frame,
  set_session,
}
use network_project.Record.{frame, parse, type_hs1, type_hs2, type_hs3, type_probe, type_data}
use network_project.Peer.Data.{on_data}

module _ (noise : Noise) (hs : Handshakes noise) where
  open hs use {
    Initiator, Responder, new_initiator, message1, read_message2, write_message3, new_responder,
    read_message1, message2, read_message3,
  }

  abbrev pub Step : Type 0
  Step = Option (Peer noise hs × Option Output)

  unfoldable pub reset_handshake : Peer noise hs → Peer noise hs
  reset_handshake p = record p {
    initiator_hs = none;
    hs1_frame = none;
    hs3_frame = none;
    hs3_pending = false;
    responder = none;
    hs1_msg = none;
    hs2_frame = none;
  }

  unfoldable pub drop_responder : Peer noise hs → Peer noise hs
  drop_responder p = record p { responder = none; hs1_msg = none; hs2_frame = none }

  unfoldable pub address_for : Peer noise hs → DataPath → Option UdpAddr
  address_for p path_relay = p.relay_addr
  address_for p _ = p.direct_ep

  -- the budget of `onHS1`: its window, and the count with this message
  unfoldable pub count_hs1 : Peer noise hs → ℕ → Peer noise hs
  count_hs1 p now =
      if leb second (now - p.hs_burst_start)
      then record p { hs_burst_start = now; hs_burst_count = 1 }
      else record p { hs_burst_count = p.hs_burst_count + 1 }

  abbrev pub on_relay : DataPath → Bool
  on_relay path_relay = true
  on_relay _ = false

  -- from the Noise calls on
  unfoldable pub answer_from_responder : Peer noise hs → ℕ → Bytes → DataPath → Responder → Step
  answer_from_responder p now msg path r = elim (read_message1 r msg) [
    | none ↦ some (record p { responder = none }, none)
    | some r1 ↦ elim (message2 r1) [
      | none ↦ some (record p { responder = none }, none)
      | some (msg2, r2) ↦ elim (frame type_hs2 msg2) [
        | none ↦ none
        | some f ↦
            let p' = record p {
              responder = some r2;
              hs1_msg = some msg;
              hs2_frame = some f;
              hs2_sent_at = now;
              mode = path;
              phase_start = now;
            } in
            some (p', send_frame noise hs p' path p.direct_ep f)
      ]
    ]
  ]

  -- with the responder that is there, or a new one
  unfoldable pub answer_hs1 : Peer noise hs → ℕ → ℕ → Bytes → DataPath → Step
  answer_hs1 p now seed msg path = elim p.responder [
    | some r ↦ answer_from_responder p now msg path r
    | none ↦ elim (new_responder seed) [
      | none ↦ some (p, none)
      | some r ↦ answer_from_responder p now msg path r
    ]
  ]

  abbrev pub same_msg : Option Bytes → Bytes → Bool
  same_msg none msg = equal [] msg
  same_msg (some m) msg = equal m msg

  -- a half-open responder is there, with its cached answer
  unfoldable pub half_open : Peer noise hs → ℕ → ℕ → Bytes → DataPath → Bytes → Step
  half_open p now seed msg path f =
      if same_msg p.hs1_msg msg
      then some (p, send_frame noise hs p path p.direct_ep f)
      else if ltb (now - p.hs2_sent_at) responder_handshake_timeout
      then some (p, none)
      else answer_hs1 (drop_responder p) now seed msg path

  unfoldable pub open_hs1 : Peer noise hs → ℕ → ℕ → Bytes → DataPath → Step
  open_hs1 p now seed msg path = elim p.responder [
    | none ↦ answer_hs1 p now seed msg path
    | some r ↦ elim p.hs2_frame [
      | none ↦ answer_hs1 p now seed msg path
      | some f ↦ half_open p now seed msg path f
    ]
  ]

  unfoldable pub on_hs1 : Peer noise hs → ℕ → ℕ → Bytes → DataPath → Step
  on_hs1 p now seed msg path =
      let p' = count_hs1 p now in
      if ltb hs1_max_per_sec p'.hs_burst_count
      then some (p', none)
      else if p'.established && not (on_relay p'.path)
      then some (p', none)
      else open_hs1 p' now seed msg path

  unfoldable pub on_hs2 : Peer noise hs → ℕ → Bytes → DataPath → Step
  on_hs2 p now msg path =
      let failed = record p { initiator_hs = none; hs1_frame = none } in
      elim p.initiator_hs [
        | none ↦ some (p, none)
        | some i ↦ elim (read_message2 i msg) [
          | none ↦ some (failed, none)
          | some i2 ↦ elim (write_message3 i2) [
            | none ↦ some (failed, none)
            | some (msg3, sess, i3) ↦ elim (frame type_hs3 msg3) [
              | none ↦ none
              | some f ↦
                  let p1 =
                    set_session noise hs (record p { initiator_hs = some i3 }) now sess path in
                  let p2 = record p1 { hs3_frame = some f; hs3_pending = true; last_hs3 = now } in
                  some (p2, send_frame noise hs p2 path p2.direct_ep f)
            ]
          ]
        ]
      ]

  unfoldable pub resend_hs3 : Peer noise hs → ℕ → Peer noise hs × Option Output
  resend_hs3 p now = elim p.hs3_frame [
    | none ↦ (p, none)
    | some f ↦
        if not p.hs3_pending
        then (p, none)
        else (record p { last_hs3 = now }, send_frame noise hs p p.mode p.direct_ep f)
  ]

  unfoldable pub on_hs3 : Peer noise hs → ℕ → Bytes → DataPath → Step
  on_hs3 p now msg path = elim p.responder [
    | none ↦ some (p, none)
    | some r ↦ elim (read_message3 r msg) [
      | none ↦ some (record p { responder = none }, none)
      | some sess ↦ some (drop_responder (set_session noise hs p now sess path), none)
    ]
  ]

  unfoldable pub quietly : Option (Peer noise hs) → Step
  quietly none = none
  quietly (some p) = some (p, none)

  unfoldable pub handle_by_path : Peer noise hs → ℕ → ℕ → DataPath → ℕ → Bytes → Step
  handle_by_path p now seed path typ payload =
      if typ == type_hs1
      then if p.initiator then some (p, none) else on_hs1 p now seed payload path
      else if typ == type_hs2
      then if p.initiator then on_hs2 p now payload path else some (p, none)
      else if typ == type_hs3
      then if p.initiator then some (p, none) else on_hs3 p now payload path
      else if typ == type_data
      then quietly (on_data noise hs p payload)
      else some (p, none)

  -- `src.String()`, for the comparison with the relay's address
  unfoldable pub handle_frame :
      (UdpAddr → Bytes) → Peer noise hs → ℕ → ℕ → Option UdpAddr → Bytes → Step
  handle_frame addr_string p now seed src datagram = elim (parse datagram) [
    | err _ ↦ some (p, none)
    | ok (typ, payload) ↦ handle_by_path p now seed (from_relay p.relay_addr src) typ payload
  ]
    where
      from_relay : Option UdpAddr → Option UdpAddr → DataPath
      from_relay (some a) (some s) =
          if equal (addr_string s) (addr_string a) then path_relay else path_direct
      from_relay _ _ = path_direct
