-- ===== src/Peer/Handshake/Frames.antt =====
-- peer.go: every frame leaves a peer with a session of the peer that it was made for.
use network_project.Prelude.{
  ℕ, ◌≡◌, refl, ◌∙◌, inl, inr, ◌||◌, Option, none, some, Bytes, length, drop, ltb, ◌==◌, if-rule,
  Option-cases, Result-cases,
}
use mathlib.Core.Path.{subst}
use network_project.Net.{UdpAddr}
use network_project.Noisework.Cipher.{Noise}
use network_project.Noisework.Session.{Session, decrypt_at}
use network_project.Peer.Replay.{check, commit}
use network_project.Peer.Disco.{DataPath}
use network_project.Peer.State.{Installed, Handshakes, Peer}
use network_project.Record.{parse, type_hs1, type_hs2, type_hs3, type_data}
use network_project.Peer.Data.{on_data, gate_data, open_data, deliver, u64_at}
use network_project.Peer.Handshake.{on_hs1, on_hs2, on_hs3, quietly, handle_by_path, handle_frame}
use network_project.Peer.Handshake.Identity.{
  Authentic, After, on_hs1-After, on_hs2-After, on_hs3-After,
}

module _ (noise : Noise) (hs : Handshakes noise) where
  open hs use {
    Initiator, Responder, new_initiator, message1, read_message2, write_message3, new_responder,
    read_message1, message2, read_message3,
  }

  -- a session that has moved on is the same peer's
  pub moved_on :
      (key : Bytes) (p q : Peer noise hs) (sess : Installed noise) (x : Session noise)
      → Authentic noise hs key p
      → p.sess ≡ some sess
      → q.peer_static ≡ p.peer_static
      → q.sess ≡ some (record sess { session = x })
      → Authentic noise hs key q
  moved_on key p q sess x v i s e = record {
    expected = s ∙ v.expected;
    holder = λ y k.
        let here : record sess { session = x } ≡ y = cc (e, k) in
        subst (λ (z : Installed noise). (z.peer_static ≡ key) × (length z.peer_static ≡ 32)) here
          (v.holder sess i);
  }

  open_data-After :
      (key : Bytes) (p : Peer noise hs) (sess : Installed noise) (n : ℕ) (cipher : Bytes)
      → Authentic noise hs key p
      → p.sess ≡ some sess
      → After noise hs key (quietly noise hs (open_data noise hs p sess n cipher))
  unfolding open_data deliver quietly
  open_data-After key p sess n cipher v i =
      let s = (decrypt_at noise sess.session n cipher).0 in
      elim (Result-cases (decrypt_at noise sess.session n cipher).1) [
        | inr (x, e) ↦ rw (e, open_data) (moved_on key p _ sess s v i refl refl)
        | inl (plain, e) ↦ elim (Option-cases (commit p.replay n)) [
          | inl f ↦ simp (e, f, open_data) tt
          | inr (w, f) ↦ simp (e, f, open_data) (moved_on key p _ sess s v i refl refl)
        ]
      ]

  gate_data-After :
      (key : Bytes) (p : Peer noise hs) (sess : Installed noise) (n : ℕ) (cipher : Bytes)
      → Authentic noise hs key p
      → p.sess ≡ some sess
      → After noise hs key (quietly noise hs (gate_data noise hs p sess n cipher))
  unfolding gate_data quietly
  gate_data-After key p sess n cipher v i = elim (Option-cases (check p.replay n)) [
    | inl e ↦ simp (e, gate_data) tt
    | inr (b, e) ↦
        simp (e, gate_data)
          (if-rule (λ o. After noise hs key (quietly noise hs o)) b
            (open_data noise hs p sess n cipher) (some p) (open_data-After key p sess n cipher v i)
            v)
  ]

  on_data-After :
      (key : Bytes) (p : Peer noise hs) (payload : Bytes)
      → Authentic noise hs key p
      → After noise hs key (quietly noise hs (on_data noise hs p payload))
  unfolding on_data quietly
  on_data-After key p payload v =
      let Good = λ (o : Option (Peer noise hs)). After noise hs key (quietly noise hs o) in
      elim (Option-cases p.sess) [
        | inl e ↦ if-rule Good (p.closed || p.recv_closed) (some p) _ v (simp e v)
        | inr (sess, e) ↦ if-rule Good (p.closed || p.recv_closed) (some p) _ v (
            simp e (
              if-rule Good (ltb (length payload) 8) (some p)
                (gate_data noise hs p sess (u64_at payload) (drop 8 payload)) v
                (gate_data-After key p sess (u64_at payload) (drop 8 payload) v e)))
      ]

  handle_by_path-After :
      (key : Bytes) (p : Peer noise hs) (now seed : ℕ) (path : DataPath) (typ : ℕ) (payload : Bytes)
      → Authentic noise hs key p
      → After noise hs key (handle_by_path noise hs p now seed path typ payload)
  unfolding handle_by_path
  handle_by_path-After key p now seed path typ payload v =
      let same : After noise hs key (some (p, none)) = v in
      if-rule (After noise hs key) (typ == type_hs1) _ _
        (if-rule (After noise hs key) p.initiator (some (p, none))
          (on_hs1 noise hs p now seed payload path) same
          (on_hs1-After noise hs key p now seed payload path v))
        (if-rule (After noise hs key) (typ == type_hs2) _ _
          (if-rule (After noise hs key) p.initiator (on_hs2 noise hs p now payload path)
            (some (p, none)) (on_hs2-After noise hs key p now payload path v) same)
          (if-rule (After noise hs key) (typ == type_hs3) _ _
            (if-rule (After noise hs key) p.initiator (some (p, none))
              (on_hs3 noise hs p now payload path) same
              (on_hs3-After noise hs key p now payload path v))
            (if-rule (After noise hs key) (typ == type_data)
              (quietly noise hs (on_data noise hs p payload)) (some (p, none))
              (on_data-After key p payload v) same)))

  pub handle_frame-After :
      (addr_string : UdpAddr → Bytes) (key : Bytes) (p : Peer noise hs) (now seed : ℕ)
      (src : Option UdpAddr) (datagram : Bytes)
      → Authentic noise hs key p
      → After noise hs key (handle_frame noise hs addr_string p now seed src datagram)
  unfolding handle_frame
  handle_frame-After addr_string key p now seed src datagram v =
      elim (Result-cases (parse datagram)) [
        | inr (x, e) ↦ simp (e, handle_frame) v
        | inl (f, e) ↦ simp (e, handle_frame) (handle_by_path-After key p now seed _ f.0 f.1 v)
      ]
