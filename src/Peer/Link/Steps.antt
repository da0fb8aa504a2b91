-- ===== src/Peer/Link/Steps.antt =====
-- peer.go: the steps of two peers that exchange the three messages of the handshake on the direct path.
use network_project.Prelude.{
  ℕ, ◌+◌, ◌-◌, ◌%◌, ◌^◌, ◌≡◌, refl, ap, ◌∙◌, true, false, Option, none, some, Bytes, length, leb,
  equal, equal_iff, ==_iff,
}
use network_project.Net.{UdpAddr}
use network_project.Noisework.Cipher.{Noise}
use network_project.Noisework.Session.{Session}
use network_project.Record.{frame, type_hs1, type_hs2, type_hs3}
use network_project.Record.RoundTrip.{parse-frame}
use network_project.Peer.Disco.{path_direct, hs1_resend_interval, second}
use network_project.Peer.Replay.{new_replay_window, replay_window_size_bits}
use network_project.Peer.State.{Installed, Handshakes, direct, Peer, send_frame, set_session}
use network_project.Peer.Handshake.{
  handle_by_path, handle_frame, on_hs1, count_hs1, open_hs1, answer_hs1, answer_from_responder,
  on_hs2, on_hs3, drop_responder, address_for,
}
use network_project.Peer.Run.{make_hs1, punch_hs1, punch}

module _ (noise : Noise) (hs : Handshakes noise) (addr_string : UdpAddr → Bytes) where
  -- A source is not the relay.
  abbrev pub IsOther : Option UdpAddr → UdpAddr → Type 0
  IsOther none src = Unit {0}
  IsOther (some a) src = equal (addr_string src) (addr_string a) ≡ false

  pub handle_frame_direct :
      (p : Peer noise hs) (ra : Option UdpAddr) (now seed : ℕ) (src : UdpAddr) (t : ℕ)
      (payload f : Bytes)
      → p.relay_addr ≡ ra
      → IsOther ra src
      → frame t payload ≡ some f
      → handle_frame noise hs addr_string p now seed (some src) f
        ≡ handle_by_path noise hs p now seed path_direct t payload
  unfolding handle_frame
  handle_frame_direct p none now seed src t payload f r o e =
      simp (parse-frame t payload f e, r, handle_frame) refl
  handle_frame_direct p (some a) now seed src t payload f r o e =
      simp (parse-frame t payload f e, r, o, handle_frame) refl

-- An undisturbed exchange between the two roles that peers run, for their static keys.
pub record Shake (noise : Noise) (hs hs' : Handshakes noise) (ka kb : Bytes) (sa sb : ℕ)
    : Type 0 where
  pub i0 : hs.Initiator
  pub i1 : hs.Initiator
  pub i2 : hs.Initiator
  pub i3 : hs.Initiator
  pub r0 : hs'.Responder
  pub r1 : hs'.Responder
  pub r2 : hs'.Responder
  pub m1 : Bytes
  pub m2 : Bytes
  pub m3 : Bytes
  pub ends : Session noise
  pub ends' : Session noise
  pub new_initiator_eq : hs.new_initiator sa kb ≡ some i0
  pub message1_eq : hs.message1 i0 ≡ some (m1, i1)
  pub new_responder_eq : hs'.new_responder sb ≡ some r0
  pub read_message1_eq : hs'.read_message1 r0 m1 ≡ some r1
  pub message2_eq : hs'.message2 r1 ≡ some (m2, r2)
  pub read_message2_eq : hs.read_message2 i1 m2 ≡ some i2
  pub write_message3_eq :
      hs.write_message3 i2 ≡ some (m3, record { session = ends; peer_static = kb }, i3)
  pub read_message3_eq :
      hs'.read_message3 r2 m3 ≡ some (record { session = ends'; peer_static = ka })

module _ (noise : Noise) (hs hs' : Handshakes noise) (ka kb : Bytes) (sa sb : ℕ)
    (x : Shake noise hs hs' ka kb sa sb) (ea eb : UdpAddr) where
  abbrev pub calling : Peer noise hs → ℕ → Bytes → Peer noise hs
  calling p t f = record p { initiator_hs = some x.i1; hs1_frame = some f; last_hs1 = t }

  pub punch_lem :
      (p : Peer noise hs) (t : ℕ) (f : Bytes)
      → frame type_hs1 x.m1 ≡ some f
      → p.peer_static ≡ kb
      → p.initiator ≡ true
      → p.hs1_frame ≡ none
      → p.direct_ep ≡ some eb
      → leb hs1_resend_interval (t - p.last_hs1) ≡ true
      → punch noise hs p t sa path_direct ≡ some (calling p t f, some (direct eb f))
  unfolding punch punch_hs1 make_hs1 send_frame address_for
  punch_lem p t f w k i n e late =
      let new : hs.new_initiator sa p.peer_static ≡ some x.i0 =
        ap (hs.new_initiator sa) k ∙ x.new_initiator_eq in
      rw (i, late, n, new, x.message1_eq, w, e) refl

  abbrev pub answered : Peer noise hs' → ℕ → Bytes → Peer noise hs'
  answered q t f = record q {
    hs_burst_start = t;
    hs_burst_count = 1;
    responder = some x.r2;
    hs1_msg = some x.m1;
    hs2_frame = some f;
    hs2_sent_at = t;
    mode = path_direct;
    phase_start = t;
  }

  pub on_hs1_lem :
      (q : Peer noise hs') (t : ℕ) (f : Bytes)
      → frame type_hs2 x.m2 ≡ some f
      → q.established ≡ false
      → q.responder ≡ none
      → q.direct_ep ≡ some ea
      → leb second (t - q.hs_burst_start) ≡ true
      → on_hs1 noise hs' q t sb x.m1 path_direct ≡ some (answered q t f, some (direct ea f))
  unfolding on_hs1 count_hs1 open_hs1 answer_hs1 answer_from_responder send_frame
  on_hs1_lem q t f w n r e late =
      simp
        (
          late, n, r, x.new_responder_eq, answer_from_responder, x.read_message1_eq, x.message2_eq,
          w, e,
        )
        refl

  -- the session of the initiator, and that of the responder
  abbrev pub called : Installed noise
  called = record { session = x.ends; peer_static = kb }

  abbrev pub joined : Installed noise
  joined = record { session = x.ends'; peer_static = ka }

  abbrev with_session : (g : Handshakes noise) → Peer noise g → ℕ → Installed noise → Peer noise g
  with_session g p t s = record p {
    rekey_count = elim p.sess [ none ↦ p.rekey_count | some _ ↦ (p.rekey_count + 1) % 2 ^ 64 ];
    sess = some s;
    replay = new_replay_window replay_window_size_bits;
    established = true;
    path = path_direct;
    mode = path_direct;
    sess_since = t;
    last_sent = t;
  }

  set_session_lem :
      (g : Handshakes noise) (p : Peer noise g) (t : ℕ) (s : Installed noise)
      → length s.peer_static ≡ 32
      → s.peer_static ≡ p.peer_static
      → set_session noise g p t s path_direct ≡ with_session g p t s
  unfolding set_session
  set_session_lem g p t s l e =
      rw ((==_iff (length s.peer_static) 32).1 l, (equal_iff s.peer_static p.peer_static).1 e) refl

  -- What holds of a peer that has the session.
  abbrev pub Linked : (g : Handshakes noise) → Installed noise → ℕ → Peer noise g → Type 0
  Linked g s t p =
      (p.sess ≡ some s) × (p.established ≡ true) × (p.path ≡ path_direct) × (p.sess_since ≡ t)

  pub on_hs2_lem :
      (p : Peer noise hs) (t : ℕ) (f : Bytes)
      → frame type_hs3 x.m3 ≡ some f
      → length kb ≡ 32
      → kb ≡ p.peer_static
      → p.initiator_hs ≡ some x.i1
      → p.direct_ep ≡ some eb
      → (q : Peer noise hs) × (on_hs2 noise hs p t x.m2 path_direct ≡ some (q, some (direct eb f)))
        × Linked hs called t q
  unfolding on_hs2 send_frame
  on_hs2_lem p t f w l k i e =
      let p1 : Peer noise hs = record p { initiator_hs = some x.i3 } in
      let s = set_session_lem hs p1 t called l k in
      let q : Peer noise hs = record (with_session hs p1 t called) {
        hs3_frame = some f;
        hs3_pending = true;
        last_hs3 = t;
      } in
      (
        q,
        simp (on_hs2, i, x.read_message2_eq, x.write_message3_eq, w, s) (simp e refl),
        (refl, refl, refl, refl),
      )

  pub on_hs3_lem :
      (q : Peer noise hs') (t : ℕ)
      → length ka ≡ 32
      → ka ≡ q.peer_static
      → q.responder ≡ some x.r2
      → (r : Peer noise hs') × (on_hs3 noise hs' q t x.m3 path_direct ≡ some (r, none))
        × Linked hs' joined t r
  unfolding on_hs3 drop_responder
  on_hs3_lem q t l k i =
      let s = set_session_lem hs' q t joined l k in
      (
        drop_responder noise hs' (with_session hs' q t joined),
        simp (on_hs3, i, x.read_message3_eq, s) refl,
        (refl, refl, refl, refl),
      )
