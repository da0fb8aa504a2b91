-- ===== src/Peer/Handshake/Identity.antt =====
-- peer.go: whose session a peer runs.
use network_project.Prelude.{
  ℕ, ◌-◌, ◌≡◌, refl, sym, ◌∙◌, inl, inr, not, ◌&&◌, Option, none, some, Bytes, length, ltb, leb,
  ◌==◌, Bool-cases, if-rule, Option-cases, equal, equal_iff, ==_iff,
}
use mathlib.Core.Path.{subst}
use network_project.Noisework.Cipher.{Noise}
use network_project.Peer.Disco.{DataPath, second}
use network_project.Peer.State.{
  hs1_max_per_sec, responder_handshake_timeout, Installed, Handshakes, Output, Peer, send_frame,
  set_session,
}
use network_project.Record.{frame, type_hs2, type_hs3}
use network_project.Peer.Handshake.{
  drop_responder, count_hs1, answer_from_responder, answer_hs1, half_open, open_hs1, on_hs1, on_hs2,
  on_hs3, same_msg, on_relay,
}

module _ (noise : Noise) (hs : Handshakes noise) where
  open hs use {
    Initiator, Responder, new_initiator, message1, read_message2, write_message3, new_responder,
    read_message1, message2, read_message3,
  }

  -- The session that is installed, if one is, authenticated the static key `key`, of 32 bytes.
  pub record Authentic (key : Bytes) (p : Peer noise hs) : Type 0 where
    pub expected : p.peer_static ≡ key
    pub holder :
        (x : Installed noise)
        → p.sess ≡ some x
        → (x.peer_static ≡ key) × (length x.peer_static ≡ 32)

  -- of the peer that a step leaves, if it does not panic
  abbrev pub After : Bytes → Option (Peer noise hs × Option Output) → Type 0
  After key none = Unit {0}
  After key (some (p, _)) = Authentic key p

  -- what a change of other fields keeps
  pub Authentic-same :
      (key : Bytes) (p q : Peer noise hs)
      → q.peer_static ≡ p.peer_static
      → q.sess ≡ p.sess
      → Authentic key p
      → Authentic key q
  Authentic-same key p q s t v = record {
    expected = s ∙ v.expected;
    holder = λ x e. v.holder x (sym t ∙ e);
  }

  set_session-Authentic :
      (key : Bytes) (p : Peer noise hs) (now : ℕ) (sess : Installed noise) (path : DataPath)
      → Authentic key p
      → Authentic key (set_session noise hs p now sess path)
  unfolding set_session
  set_session-Authentic key p now sess path v = elim (Bool-cases (length sess.peer_static == 32)) [
    | inr short ↦ rw (short, set_session) v
    | inl long ↦ elim (Bool-cases (equal sess.peer_static p.peer_static)) [
      | inr other ↦ rw (long, set_session) (rw other v)
      | inl same ↦
          rw (long, set_session)
            (rw same (record {
              expected = v.expected;
              holder = λ x e.
                  let here : sess ≡ x = cc e in
                  subst
                    (λ (y : Installed noise). (y.peer_static ≡ key) × (length y.peer_static ≡ 32))
                    here
                    (
                      (equal_iff sess.peer_static p.peer_static).0 same ∙ v.expected,
                      (==_iff (length sess.peer_static) 32).0 long,
                    );
            }))
    ]
  ]

  count_hs1-Authentic :
      (key : Bytes) (p : Peer noise hs) (now : ℕ)
      → Authentic key p
      → Authentic key (count_hs1 noise hs p now)
  unfolding count_hs1
  count_hs1-Authentic key p now v =
      if-rule (Authentic key) (leb second (now - p.hs_burst_start)) _ _
        (Authentic-same key p _ refl refl v) (Authentic-same key p _ refl refl v)

  drop_responder-Authentic :
      (key : Bytes) (p : Peer noise hs)
      → Authentic key p
      → Authentic key (drop_responder noise hs p)
  unfolding drop_responder
  drop_responder-Authentic key p v = Authentic-same key p _ refl refl v

  answer_from :
      (key : Bytes) (p : Peer noise hs) (now : ℕ) (msg : Bytes) (path : DataPath) (r : Responder)
      → Authentic key p
      → After key (answer_from_responder noise hs p now msg path r)
  unfolding answer_from_responder
  answer_from key p now msg path r v = elim (Option-cases (read_message1 r msg)) [
    | inl e ↦ rw (e, answer_from_responder) (Authentic-same key p _ refl refl v)
    | inr (r1, e) ↦ elim (Option-cases (message2 r1)) [
      | inl f ↦
          rw (e, answer_from_responder)
            (rw (f, answer_from_responder) (Authentic-same key p _ refl refl v))
      | inr (m, f) ↦ elim (Option-cases (frame type_hs2 m.0)) [
        | inl g ↦
            rw (e, answer_from_responder)
              (rw (f, answer_from_responder) (rw (g, answer_from_responder) tt))
        | inr (w, g) ↦
            rw (e, answer_from_responder)
              (rw (f, answer_from_responder)
                (rw (g, answer_from_responder) (Authentic-same key p _ refl refl v)))
      ]
    ]
  ]

  answer_hs1-After :
      (key : Bytes) (p : Peer noise hs) (now seed : ℕ) (msg : Bytes) (path : DataPath)
      → Authentic key p
      → After key (answer_hs1 noise hs p now seed msg path)
  unfolding answer_hs1
  answer_hs1-After key p now seed msg path v = elim (Option-cases p.responder) [
    | inr (r, e) ↦ simp (e, answer_hs1) (answer_from key p now msg path r v)
    | inl e ↦ elim (Option-cases (new_responder seed)) [
      | inl f ↦ simp (e, f, answer_hs1) v
      | inr (r, f) ↦ simp (e, f, answer_hs1) (answer_from key p now msg path r v)
    ]
  ]

  half_open-After :
      (key : Bytes) (p : Peer noise hs) (now seed : ℕ) (msg : Bytes) (path : DataPath) (f : Bytes)
      → Authentic key p
      → After key (half_open noise hs p now seed msg path f)
  unfolding half_open
  half_open-After key p now seed msg path f v =
      if-rule (After key) (same_msg noise hs p.hs1_msg msg)
        (some (p, send_frame noise hs p path p.direct_ep f)) _ v
        (if-rule (After key) (ltb (now - p.hs2_sent_at) responder_handshake_timeout)
          (some (p, none)) _ v
          (answer_hs1-After key (drop_responder noise hs p) now seed msg path
            (drop_responder-Authentic key p v)))

  open_hs1-After :
      (key : Bytes) (p : Peer noise hs) (now seed : ℕ) (msg : Bytes) (path : DataPath)
      → Authentic key p
      → After key (open_hs1 noise hs p now seed msg path)
  unfolding open_hs1
  open_hs1-After key p now seed msg path v = elim (Option-cases p.responder) [
    | inl e ↦ simp (e, open_hs1) (answer_hs1-After key p now seed msg path v)
    | inr (r, e) ↦ elim (Option-cases p.hs2_frame) [
      | inl f ↦ simp (e, f, open_hs1) (answer_hs1-After key p now seed msg path v)
      | inr (w, f) ↦ simp (e, f, open_hs1) (half_open-After key p now seed msg path w v)
    ]
  ]

  pub on_hs1-After :
      (key : Bytes) (p : Peer noise hs) (now seed : ℕ) (msg : Bytes) (path : DataPath)
      → Authentic key p
      → After key (on_hs1 noise hs p now seed msg path)
  unfolding on_hs1
  on_hs1-After key p now seed msg path v =
      let q = count_hs1 noise hs p now in
      let v' = count_hs1-Authentic key p now v in
      if-rule (After key) (ltb hs1_max_per_sec q.hs_burst_count) (some (q, none)) _ v' (
        if-rule (After key) (q.established && not (on_relay noise hs q.path)) (some (q, none)) _ v'
          (open_hs1-After key q now seed msg path v'))

  pub on_hs2-After :
      (key : Bytes) (p : Peer noise hs) (now : ℕ) (msg : Bytes) (path : DataPath)
      → Authentic key p
      → After key (on_hs2 noise hs p now msg path)
  unfolding on_hs2
  on_hs2-After key p now msg path v = elim (Option-cases p.initiator_hs) [
    | inl e ↦ simp (e, on_hs2) v
    | inr (i, e) ↦ elim (Option-cases (read_message2 i msg)) [
      | inl f ↦ simp (e, f, on_hs2) (Authentic-same key p _ refl refl v)
      | inr (i2, f) ↦ elim (Option-cases (write_message3 i2)) [
        | inl g ↦ simp (e, f, g, on_hs2) (Authentic-same key p _ refl refl v)
        | inr (m, g) ↦ elim (Option-cases (frame type_hs3 m.0)) [
          | inl w ↦ simp (e, f, g, w, on_hs2) tt
          | inr (b, w) ↦
              let q = record p { initiator_hs = some m.2 } in
              let u =
                set_session-Authentic key q now m.1 path (Authentic-same key p q refl refl v) in
              simp (e, f, g, w, on_hs2)
                (Authentic-same key (set_session noise hs q now m.1 path) _ refl refl u)
        ]
      ]
    ]
  ]

  pub on_hs3-After :
      (key : Bytes) (p : Peer noise hs) (now : ℕ) (msg : Bytes) (path : DataPath)
      → Authentic key p
      → After key (on_hs3 noise hs p now msg path)
  unfolding on_hs3
  on_hs3-After key p now msg path v = elim (Option-cases p.responder) [
    | inl e ↦ simp (e, on_hs3) v
    | inr (r, e) ↦ elim (Option-cases (read_message3 r msg)) [
      | inl f ↦ simp (e, f, on_hs3) (Authentic-same key p _ refl refl v)
      | inr (s, f) ↦
          simp (e, f, on_hs3)
            (drop_responder-Authentic key (set_session noise hs p now s path)
              (set_session-Authentic key p now s path v))
    ]
  ]
