-- ===== src/Peer/State.antt =====
-- internal/peer/peer.go: `Peer`, and what it hands to its transport. The two halves of the Noise
-- handshake are an interface: each step answers `none` for an error, and a constructor takes the
-- randomness that it draws. A session is its cipher states and the static key that the handshake
-- authenticated.
use network_project.Prelude.{
  ℕ, ◌+◌, ◌*◌, ◌%◌, ◌^◌, Bool, true, false, not, List, [], Option, none, some, Bytes, length, ◌==◌,
  if◌then◌else◌, equal,
}
use network_project.Net.{UdpAddr}
use network_project.Noisework.Cipher.{Noise}
use network_project.Noisework.Session.{Session}
use network_project.Peer.Replay.{ReplayWindow, new_replay_window, replay_window_size_bits}
use network_project.Peer.Disco.{DataPath, path_none, path_relay, role_is_initiator}

abbrev pub hs1_max_per_sec : ℕ
hs1_max_per_sec = 8

abbrev pub session_max_age : ℕ
session_max_age = 24 * 3600 * 1000000000

abbrev pub responder_handshake_timeout : ℕ
responder_handshake_timeout = 10 * 1000000000

abbrev pub recv_capacity : ℕ
recv_capacity = 64

pub record Installed (noise : Noise) : Type 0 where
  pub session : Session noise
  pub peer_static : Bytes

pub record Handshakes (noise : Noise) : Type 1 where
  pub Initiator : Type 0
  pub Responder : Type 0
  pub new_initiator : ℕ → Bytes → Option Initiator
  pub message1 : Initiator → Option (Bytes × Initiator)
  pub read_message2 : Initiator → Bytes → Option Initiator
  pub write_message3 : Initiator → Option (Bytes × Installed noise × Initiator)
  pub new_responder : ℕ → Option Responder
  pub read_message1 : Responder → Bytes → Option Responder
  pub message2 : Responder → Option (Bytes × Responder)
  pub read_message3 : Responder → Bytes → Option (Installed noise)

-- `SendDirect` and `SendRelay`
pub data Output : Type 0 where
  direct : UdpAddr → Bytes → Output
  relayed : Bytes → Bytes → Output

module _ (noise : Noise) (hs : Handshakes noise) where
  open hs use {Initiator, Responder}

  -- `recv` is what the channel holds; `relay_addr` is what the transport answers.
  pub record Peer : Type 0 where
    pub id : Bytes
    pub direct_ep : Option UdpAddr
    pub relay_addr : Option UdpAddr
    pub peer_static : Bytes
    pub initiator : Bool
    pub mode : DataPath
    pub path : DataPath
    pub responder : Option Responder
    pub initiator_hs : Option Initiator
    pub hs1_frame : Option Bytes
    pub hs1_msg : Option Bytes
    pub hs2_frame : Option Bytes
    pub hs2_sent_at : ℕ
    pub hs3_frame : Option Bytes
    pub hs3_pending : Bool
    pub last_hs3 : ℕ
    pub sess : Option (Installed noise)
    pub replay : ReplayWindow
    pub established : Bool
    pub sess_since : ℕ
    pub phase_start : ℕ
    pub last_hs1 : ℕ
    pub last_sent : ℕ
    pub closed : Bool
    pub recv_closed : Bool
    pub hs_burst_start : ℕ
    pub hs_burst_count : ℕ
    pub rekey_count : ℕ
    pub bytes_tx : ℕ
    pub bytes_rx : ℕ
    pub recv : List Bytes

  unfoldable pub new_peer : Bytes → Bytes → Bytes → Option UdpAddr → Option UdpAddr → Peer
  new_peer my_id id peer_static direct_ep relay_addr = record {
    id = id;
    direct_ep = direct_ep;
    relay_addr = relay_addr;
    peer_static = peer_static;
    initiator = role_is_initiator my_id id;
    mode = path_none;
    path = path_none;
    responder = none;
    initiator_hs = none;
    hs1_frame = none;
    hs1_msg = none;
    hs2_frame = none;
    hs2_sent_at = 0;
    hs3_frame = none;
    hs3_pending = false;
    last_hs3 = 0;
    sess = none;
    replay = new_replay_window replay_window_size_bits;
    established = false;
    sess_since = 0;
    phase_start = 0;
    last_hs1 = 0;
    last_sent = 0;
    closed = false;
    recv_closed = false;
    hs_burst_start = 0;
    hs_burst_count = 0;
    rekey_count = 0;
    bytes_tx = 0;
    bytes_rx = 0;
    recv = [];
  }

  unfoldable pub close : Peer → Peer
  close p = record p { closed = true }

  unfoldable pub set_direct_ep : Peer → Option UdpAddr → Peer
  set_direct_ep p ep = record p { direct_ep = ep }

  -- where `sendFrame` sends a frame, with the direct address that its callers pass; `none` is its error
  unfoldable pub send_frame : Peer → DataPath → Option UdpAddr → Bytes → Option Output
  send_frame p path_relay addr frame = some (relayed p.id frame)
  send_frame p _ addr frame = elim addr [ none ↦ none | some a ↦ some (direct a frame) ]

  -- The identity of a session is its handshake's: a handshake ends once, so that a session that is
  -- installed is never the one that is there.
  unfoldable pub set_session : Peer → ℕ → Installed noise → DataPath → Peer
  set_session p now sess path =
      if not (length sess.peer_static == 32)
      then p
      else if not (equal sess.peer_static p.peer_static)
      then p
      else record p {
        rekey_count = elim p.sess [ none ↦ p.rekey_count | some _ ↦ (p.rekey_count + 1) % 2 ^ 64 ];
        sess = some sess;
        replay = new_replay_window replay_window_size_bits;
        established = true;
        path = path;
        mode = path;
        sess_since = now;
        last_sent = now;
      }
