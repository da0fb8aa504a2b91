-- ===== src/Peer/Link/Meeting.antt =====
-- peer.go: two peers from the first probe to their sessions.
use network_project.Prelude.{
  ℕ, ◌-◌, ◌≤◌, ◌≡◌, refl, sym, ◌∙◌, true, false, none, some, Bytes, length, leb,
}
use network_project.Net.{UdpAddr}
use network_project.Noisework.Cipher.{Noise}
use network_project.Record.{max_payload_len, type_hs1, type_hs2, type_hs3}
use network_project.Peer.Disco.{path_direct, hs1_resend_interval, second}
use network_project.Peer.State.{Handshakes, direct, Peer}
use network_project.Peer.Handshake.{handle_by_path, handle_frame, on_hs1, on_hs2, on_hs3}
use network_project.Peer.Run.{punch}
use network_project.Peer.Run.Returning.{frame-some}
use network_project.Peer.Link.Steps.{
  IsOther, handle_frame_direct, Shake, calling, answered, punch_lem, on_hs1_lem, on_hs2_lem,
  on_hs3_lem, called, joined, Linked,
}

module _ (noise : Noise) (hs hs' : Handshakes noise) (ka kb : Bytes) (sa sb : ℕ)
    (x : Shake noise hs hs' ka kb sa sb) (ea eb : UdpAddr) (addr_string : UdpAddr → Bytes) where
  -- An initiator that is due to send its first message, on the direct path.
  pub record CanCall (p : Peer noise hs) (t : ℕ) : Type 0 where
    pub role : p.initiator ≡ true
    pub key : p.peer_static ≡ kb
    pub blank : p.hs1_frame ≡ none
    pub ep : p.direct_ep ≡ some eb
    pub due : leb hs1_resend_interval (t - p.last_hs1) ≡ true
    pub unrelayed : IsOther noise hs addr_string p.relay_addr eb

  -- A responder that waits for one.
  pub record CanAnswer (q : Peer noise hs') (t : ℕ) : Type 0 where
    pub role : q.initiator ≡ false
    pub key : q.peer_static ≡ ka
    pub idle : q.responder ≡ none
    pub unestablished : q.established ≡ false
    pub ep : q.direct_ep ≡ some ea
    pub window : leb second (t - q.hs_burst_start) ≡ true
    pub unrelayed : IsOther noise hs' addr_string q.relay_addr ea

  -- The four steps, whose datagrams go to the other peer's endpoint and come from there.
  pub record Meets (p : Peer noise hs) (q : Peer noise hs') (t1 t2 t3 t4 seed : ℕ) : Type 0 where
    pub f1 : Bytes
    pub f2 : Bytes
    pub f3 : Bytes
    pub p1 : Peer noise hs
    pub p2 : Peer noise hs
    pub q1 : Peer noise hs'
    pub q2 : Peer noise hs'
    pub calls : punch noise hs p t1 sa path_direct ≡ some (p1, some (direct eb f1))
    pub answers :
        handle_frame noise hs' addr_string q t2 sb (some ea) f1 ≡ some (q1, some (direct ea f2))
    pub closes :
        handle_frame noise hs addr_string p1 t3 seed (some eb) f2 ≡ some (p2, some (direct eb f3))
    pub joins : handle_frame noise hs' addr_string q1 t4 seed (some ea) f3 ≡ some (q2, none)
    pub linked :
        Linked noise hs hs' ka kb sa sb x ea eb hs (called noise hs hs' ka kb sa sb x ea eb) t3 p2
    pub linked' :
        Linked noise hs hs' ka kb sa sb x ea eb hs' (joined noise hs hs' ka kb sa sb x ea eb) t4 q2

  by_path1 :
      (q : Peer noise hs') (t : ℕ) (m : Bytes)
      → q.initiator ≡ false
      → handle_by_path noise hs' q t sb path_direct type_hs1 m
        ≡ on_hs1 noise hs' q t sb m path_direct
  unfolding handle_by_path
  by_path1 q t m i = rw i refl

  by_path2 :
      (p : Peer noise hs) (t seed : ℕ) (m : Bytes)
      → p.initiator ≡ true
      → handle_by_path noise hs p t seed path_direct type_hs2 m ≡ on_hs2 noise hs p t m path_direct
  unfolding handle_by_path
  by_path2 p t seed m i = rw i refl

  by_path3 :
      (q : Peer noise hs') (t seed : ℕ) (m : Bytes)
      → q.initiator ≡ false
      → handle_by_path noise hs' q t seed path_direct type_hs3 m
        ≡ on_hs3 noise hs' q t m path_direct
  unfolding handle_by_path
  by_path3 q t seed m i = rw i refl

  pub shake-Meets :
      (p : Peer noise hs) (q : Peer noise hs') (t1 t2 t3 t4 seed : ℕ)
      → CanCall p t1
      → CanAnswer q t2
      → length ka ≡ 32
      → length kb ≡ 32
      → length x.m1 ≤ max_payload_len
      → length x.m2 ≤ max_payload_len
      → length x.m3 ≤ max_payload_len
      → Meets p q t1 t2 t3 t4 seed
  shake-Meets p q t1 t2 t3 t4 seed c d la lb l1 l2 l3 =
      let (f1, w1) = frame-some type_hs1 x.m1 l1 in
      let (f2, w2) = frame-some type_hs2 x.m2 l2 in
      let (f3, w3) = frame-some type_hs3 x.m3 l3 in
      let p1 = calling noise hs hs' ka kb sa sb x ea eb p t1 f1 in
      let q1 = answered noise hs hs' ka kb sa sb x ea eb q t2 f2 in
      let (p2, e2, v) =
        on_hs2_lem noise hs hs' ka kb sa sb x ea eb p1 t3 f3 w3 lb (sym c.key) refl c.ep in
      let (q2, e3, v') = on_hs3_lem noise hs hs' ka kb sa sb x ea eb q1 t4 la (sym d.key) refl in
      record {
        f1 = f1;
        f2 = f2;
        f3 = f3;
        p1 = p1;
        p2 = p2;
        q1 = q1;
        q2 = q2;
        calls =
            punch_lem noise hs hs' ka kb sa sb x ea eb p t1 f1 w1 c.key c.role c.blank c.ep c.due;
        answers =
            handle_frame_direct noise hs' addr_string q q.relay_addr t2 sb ea type_hs1 x.m1 f1 refl
              d.unrelayed w1
            ∙ by_path1 q t2 x.m1 d.role
            ∙ on_hs1_lem noise hs hs' ka kb sa sb x ea eb q t2 f2 w2 d.unestablished d.idle d.ep
                d.window;
        closes =
            handle_frame_direct noise hs addr_string p1 p.relay_addr t3 seed eb type_hs2 x.m2 f2
              refl c.unrelayed w2
            ∙ by_path2 p1 t3 seed x.m2 c.role
            ∙ e2;
        joins =
            handle_frame_direct noise hs' addr_string q1 q.relay_addr t4 seed ea type_hs3 x.m3 f3
              refl d.unrelayed w3
            ∙ by_path3 q1 t4 seed x.m3 d.role
            ∙ e3;
        linked = v;
        linked' = v';
      }
