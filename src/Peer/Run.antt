-- ===== src/Peer/Run.antt =====
-- peer.go: `Run`, its tick, and the steps that a tick takes: the probe with message 1, the switch
-- between the paths, the roaming from the relay, the keepalive and the rotation by age. `accepts` says
-- which datagrams the transport takes without an error. The outer `none` is a panic of `record.Frame`.
pub mod Keeping
pub mod Standing
pub mod Returning
pub mod Fresh
pub mod Expiry
pub mod Probing
pub mod Turning
pub mod Fallback
use network_project.Prelude.{
  ℕ, zero, suc, ◌+◌, ◌-◌, ◌*◌, ◌/◌, ◌%◌, ◌^◌, ◌≤◌, ◌<◌, ◌≡◌, refl, sym, ap, ◌∙◌, ◌≢◌, ◌↔◌, ◌⊎◌, inl,
  inr, Bool, true, false, not, ◌&&◌, ◌||◌, List, [], ◌∷◌, ◌++◌, map, Option, none, some, arith,
  Bytes, AllBytes, All, length, get_or, set, take, drop, replicate, ltb, leb, ◌==◌, if◌then◌else◌,
  Bool-cases, if-rule, Option-cases, Result, ok, err, ◌>>=◌, ◌>>◌, fail_if, wrap, put_u16, u16_at,
  equal, equal_iff, equal_refl, Result-cases, length-append, take-append, drop-append, ltb→lt,
  ltb→ge, lt→ltb, ge→ltb, ==_iff,
}
use network_project.Net.{UdpAddr}
use network_project.Noisework.Cipher.{Noise}
use network_project.Noisework.Session.{Session, SessionError, send, decrypt_at, max_plaintext_len}
use network_project.Relay.Packet.{max_header_len}
use network_project.Peer.Replay.{
  ReplayWindow, new_replay_window, replay_window_size_bits, check, commit,
}
use network_project.Peer.Disco.{
  DataPath, path_none, path_direct, path_relay, role_is_initiator, direct_attempt, relay_attempt,
  keepalive_interval, reestablish_interval, hs1_resend_interval, second,
}
use network_project.Peer.State.{
  hs1_max_per_sec, session_max_age, responder_handshake_timeout, recv_capacity, Installed,
  Handshakes, Output, direct, relayed, Peer, new_peer, close, set_direct_ep, send_frame,
  set_session,
}
use network_project.Record.{frame, type_hs1, type_probe}
use network_project.Peer.Data.{SendError, send_payload}
use network_project.Peer.Handshake.{
  reset_handshake, drop_responder, address_for, resend_hs3, on_relay,
}

abbrev pub attempt_for : DataPath → ℕ
attempt_for path_relay = relay_attempt
attempt_for _ = direct_attempt

abbrev pub on_direct : DataPath → Bool
on_direct path_direct = true
on_direct _ = false

unfoldable pub is_some {ℓ} : {A : Type ℓ} → Option A → Bool
is_some none = false
is_some (some _) = true

abbrev pub emitted : Option Output → List Output
emitted none = []
emitted (some o) = o ∷ []

-- whether the send gave no error: there was an address, and the transport took the datagram
abbrev pub went : (Output → Bool) → Option Output → Bool
went accepts none = false
went accepts (some o) = accepts o

module _ (noise : Noise) (hs : Handshakes noise) where
  open hs use {Initiator, Responder, new_initiator, message1}

  -- before the loop: the first path, if there is one
  unfoldable pub start_run : Peer noise hs → ℕ → Option (Peer noise hs)
  start_run p now = elim p.direct_ep [
    | some _ ↦ some (record p { mode = path_direct; phase_start = now })
    | none ↦ elim p.relay_addr [
      | some _ ↦ some (record p { mode = path_relay; phase_start = now })
      | none ↦ none
    ]
  ]

  -- the deferred part of `Run`
  unfoldable pub stop_run : Peer noise hs → Peer noise hs
  stop_run p = record p { recv_closed = true }

  -- the test `hs2Stale`
  abbrev pub hs2_stale : Peer noise hs → ℕ → Bool
  hs2_stale p now =
      is_some p.responder
      && is_some p.hs2_frame
      && ltb responder_handshake_timeout (now - p.hs2_sent_at)

  unfoldable pub expire_responder : Peer noise hs → ℕ → Peer noise hs
  expire_responder p now = if hs2_stale p now then drop_responder noise hs p else p

  -- A new initiator and the frame of its message 1. The inner `none` is an error.
  unfoldable pub make_hs1 : Peer noise hs → ℕ → Option (Option (Initiator × Bytes))
  make_hs1 p seed = elim (new_initiator seed p.peer_static) [
    | none ↦ some none
    | some i ↦ elim (message1 i) [
      | none ↦ some none
      | some (m, i1) ↦ elim (frame type_hs1 m) [ none ↦ none | some f ↦ some (some (i1, f)) ]
    ]
  ]

  abbrev pub send_hs1 : Peer noise hs → ℕ → DataPath → Bytes → Peer noise hs × Option Output
  send_hs1 p now mode f =
      (record p { last_hs1 = now }, send_frame noise hs p mode (address_for noise hs p mode) f)

  unfoldable pub punch_hs1 :
      Peer noise hs → ℕ → ℕ → DataPath → Option (Peer noise hs × Option Output)
  punch_hs1 p now seed mode = elim p.hs1_frame [
    | some f ↦ some (send_hs1 p now mode f)
    | none ↦ elim (make_hs1 p seed) [
      | none ↦ none
      | some none ↦ some (p, none)
      | some (some (i, f)) ↦
          some (send_hs1 (record p { initiator_hs = some i; hs1_frame = some f }) now mode f)
    ]
  ]

  unfoldable pub punch_probe : Peer noise hs → DataPath → Option (Peer noise hs × Option Output)
  punch_probe p mode = elim (frame type_probe []) [
    | none ↦ none
    | some f ↦ some (p, send_frame noise hs p mode (address_for noise hs p mode) f)
  ]

  unfoldable pub punch : Peer noise hs → ℕ → ℕ → DataPath → Option (Peer noise hs × Option Output)
  punch p now seed mode =
      if p.initiator && leb hs1_resend_interval (now - p.last_hs1)
      then punch_hs1 p now seed mode
      else punch_probe p mode

  unfoldable pub switch_mode : Peer noise hs → ℕ → DataPath → Peer noise hs
  switch_mode p now path_direct =
      if is_some p.relay_addr
      then reset_handshake noise hs (record p { mode = path_relay; phase_start = now })
      else p
  switch_mode p now path_relay =
      if is_some p.direct_ep
      then reset_handshake noise hs (record p { mode = path_direct; phase_start = now })
      else p
  switch_mode p now path_none = p

  -- Go goes on to `SendDirect` with a nil address, which the transport refuses.
  unfoldable pub retry_direct : Peer noise hs → ℕ → ℕ → Option (Peer noise hs × Option Output)
  retry_direct p now seed = elim (make_hs1 p seed) [
    | none ↦ none
    | some none ↦ some (p, none)
    | some (some (i, f)) ↦
        let p' = record (drop_responder noise hs p) {
          initiator_hs = some i;
          hs1_frame = some f;
          hs3_frame = none;
          hs3_pending = false;
          mode = path_direct;
          last_hs1 = now;
          phase_start = now;
        } in
        some (p', send_frame noise hs p' path_direct p'.direct_ep f)
  ]

  unfoldable pub abandon_roaming : Peer noise hs → ℕ → Peer noise hs
  abandon_roaming p now =
      if on_direct p.mode
      then reset_handshake noise hs (record p { mode = path_relay; phase_start = now })
      else p

  unfoldable pub force_rehandshake : Peer noise hs → ℕ → Peer noise hs
  force_rehandshake p now = reset_handshake noise hs (record p {
    sess = none;
    replay = new_replay_window replay_window_size_bits;
    established = false;
    phase_start = now;
  })

  -- The steps of a tick go by the state `s` that the tick read at its start.
  abbrev pub Tick : Type 0
  Tick = Option (Peer noise hs × List Output)

  unfoldable pub attempt : (Output → Bool) → Peer noise hs → ℕ → ℕ → Tick
  attempt accepts s now seed = elim (punch s now seed s.mode) [
    | none ↦ none
    | some (p1, out) ↦
        let p2 =
          if went accepts out && ltb (attempt_for s.mode) (now - s.phase_start)
          then switch_mode p1 now s.mode
          else p1 in
        some (p2, emitted out)
  ]

  abbrev pub sent_out : Result SendError Output → List Output
  sent_out (err _) = []
  sent_out (ok o) = o ∷ []

  unfoldable pub keepalive : Peer noise hs → Peer noise hs → ℕ → List Output → Tick
  keepalive s p now outs =
      if ltb keepalive_interval (now - s.last_sent)
      then elim (send_payload noise hs p now []) [
        | none ↦ none
        | some (p', r) ↦ some (p', outs ++ sent_out r)
      ]
      else some (p, outs)

  -- Roaming: the probe of the direct path is given up, or started.
  unfoldable pub roam :
      Peer noise hs → Peer noise hs → ℕ → ℕ → Option (Peer noise hs × Option Output)
  roam s p now seed =
      if on_direct s.mode
      then if ltb direct_attempt (now - s.phase_start)
        then some (abandon_roaming p now, none)
        else some (p, none)
      else if ltb reestablish_interval (now - s.last_hs1)
      then retry_direct p now seed
      else some (p, none)

  unfoldable pub hold : Peer noise hs → Peer noise hs → ℕ → ℕ → List Output → Tick
  hold s p now seed outs =
      if on_relay noise hs s.path && s.initiator && is_some s.direct_ep
      then elim (roam s p now seed) [
        | none ↦ none
        | some (p', out) ↦ keepalive s p' now (outs ++ emitted out)
      ]
      else keepalive s p now outs

  unfoldable pub refresh_hs3 : Peer noise hs → ℕ → Peer noise hs × Option Output
  refresh_hs3 s now =
      if s.established && s.hs3_pending && ltb hs1_resend_interval (now - s.last_hs3)
      then resend_hs3 noise hs s now
      else (s, none)

  -- what a tick does by the state that it read
  unfoldable pub drive : (Output → Bool) → Peer noise hs → ℕ → ℕ → Tick
  drive accepts s now seed =
      if s.established && ltb session_max_age (now - s.sess_since)
      then some (force_rehandshake s now, [])
      else if not s.established
      then attempt accepts s now seed
      else let (p1, out) = refresh_hs3 s now in hold s p1 now seed (emitted out)

  unfoldable pub tick : (Output → Bool) → Peer noise hs → ℕ → ℕ → Tick
  tick accepts p now seed = drive accepts (expire_responder p now) now seed

  -- the loop, at the times and with the randomness of the list
  unfoldable pub run_ticks : (Output → Bool) → Peer noise hs → List (ℕ × ℕ) → Option (Peer noise hs)
  run_ticks accepts p [] = some p
  run_ticks accepts p ((now, seed) ∷ ts) = elim (tick accepts p now seed) [
    | none ↦ none
    | some (p', _) ↦ run_ticks accepts p' ts
  ]
