-- ===== src/Peer/Run/Fresh.antt =====
-- peer.go: each step of `Run` returns, and none makes a session or a responder stale.
use network_project.Prelude.{
  ℕ, ◌+◌, ◌-◌, ◌≤◌, ◌≡◌, inl, inr, Bool, true, not, ◌&&◌, List, [], ◌++◌, Option, none, some, Bytes,
  ltb, leb, if-rule, Option-cases, Result-cases,
}
use mathlib.Core.Path.{subst}
use network_project.Noisework.Cipher.{Noise}
use network_project.Noisework.Session.{send}
use network_project.Peer.Disco.{
  DataPath, path_none, path_direct, path_relay, keepalive_interval, hs1_resend_interval,
  direct_attempt, reestablish_interval,
}
use network_project.Peer.State.{
  Installed, Handshakes, Output, Peer, session_max_age, responder_handshake_timeout,
}
use network_project.Record.{frame, type_hs1}
use network_project.Peer.Data.{seal_data, encrypt, send_payload, limit_on}
use network_project.Peer.Handshake.{reset_handshake, drop_responder, resend_hs3, on_relay}
use network_project.Peer.Run.{
  is_some, on_direct, went, emitted, attempt_for, make_hs1, punch_hs1, punch_probe, punch,
  switch_mode, retry_direct, abandon_roaming, force_rehandshake, attempt, keepalive, roam, hold,
  refresh_hs3,
}
use network_project.Peer.Run.Returning.{Compact, Yields, data_frame-some, send-Seals, frame-some}

module _ (noise : Noise) (hs : Handshakes noise) where
  -- At `now`, a session is no older than a day, and a responder that waits for message 3 has waited for
  -- no more than ten seconds.
  pub record IsFresh (now : ℕ) (p : Peer noise hs) : Type 0 where
    pub young : p.established ≡ true → now ≤ p.sess_since + session_max_age
    pub awaited :
        (is_some p.responder && is_some p.hs2_frame) ≡ true
        → now ≤ p.hs2_sent_at + responder_handshake_timeout

  module _ (c : Compact noise hs) (now : ℕ) where
    seal_data-IsFresh :
        (p : Peer noise hs) (sess : Installed noise)
        → IsFresh now p
        → Yields (IsFresh now) (seal_data noise hs p now sess [])
    unfolding seal_data
    seal_data-IsFresh p sess v = elim (Result-cases (send noise sess.session []).1) [
      | inr (x, e) ↦ rw (e, seal_data) (record { young = v.young; awaited = v.awaited })
      | inl ((n, ct), e) ↦
          let (f, w) =
            data_frame-some noise hs c n (send noise sess.session []).1 ct e
              (send-Seals noise sess.session []) in
          simp (e, w, seal_data) (record { young = v.young; awaited = v.awaited })
    ]

    encrypt-IsFresh :
        (p : Peer noise hs) → IsFresh now p → Yields (IsFresh now) (encrypt noise hs p now [])
    unfolding encrypt
    encrypt-IsFresh p v = elim (Option-cases p.sess) [
      | inl e ↦ simp (e, encrypt) v
      | inr (sess, e) ↦
          simp (e, encrypt)
            (if-rule (Yields (IsFresh now)) (ltb (limit_on noise hs p.path) 0) _
              (seal_data noise hs p now sess []) v (seal_data-IsFresh p sess v))
    ]

    send_payload-IsFresh :
        (p : Peer noise hs) → IsFresh now p → Yields (IsFresh now) (send_payload noise hs p now [])
    unfolding send_payload
    send_payload-IsFresh p v =
        let u = encrypt-IsFresh p v in
        elim (Option-cases (encrypt noise hs p now [])) [
          | inl e ↦ absurd (subst (Yields (IsFresh now)) e u)
          | inr ((q, r), e) ↦ rw (e, send_payload) (subst (Yields (IsFresh now)) e u)
        ]

    keepalive-IsFresh :
        (s p : Peer noise hs) (outs : List Output)
        → IsFresh now p
        → Yields (IsFresh now) (keepalive noise hs s p now outs)
    unfolding keepalive
    keepalive-IsFresh s p outs v =
        let u = send_payload-IsFresh p v in
        elim (Option-cases (send_payload noise hs p now [])) [
          | inl e ↦ absurd (subst (Yields (IsFresh now)) e u)
          | inr ((q, r), e) ↦
              if-rule (Yields (IsFresh now)) (ltb keepalive_interval (now - s.last_sent)) _
                (some (p, outs)) (rw e (subst (Yields (IsFresh now)) e u)) v
        ]

    Made : Option (Option (hs.Initiator × Bytes)) → Type 0
    Made none = ⊥
    Made (some _) = Unit {0}

    make_hs1-returns : (p : Peer noise hs) (seed : ℕ) → Made (make_hs1 noise hs p seed)
    unfolding make_hs1 Made
    make_hs1-returns p seed = elim (Option-cases (hs.new_initiator seed p.peer_static)) [
      | inl e ↦ rw (e, make_hs1) tt
      | inr (i, e) ↦ elim (Option-cases (hs.message1 i)) [
        | inl g ↦ simp (e, g, make_hs1) tt
        | inr ((m, i1), g) ↦
            let (f, w) = frame-some type_hs1 m (c.first i i1 m g) in simp (e, g, w, make_hs1) tt
      ]
    ]

    retry_direct-IsFresh :
        (p : Peer noise hs) (seed : ℕ)
        → IsFresh now p
        → Yields (IsFresh now) (retry_direct noise hs p now seed)
    unfolding retry_direct drop_responder is_some Made
    retry_direct-IsFresh p seed v = elim (Option-cases (make_hs1 noise hs p seed)) [
      | inl g ↦ absurd (subst Made g (make_hs1-returns p seed))
      | inr (none, g) ↦ simp (g, retry_direct) v
      | inr (some m, g) ↦ simp (g, retry_direct) (record { young = v.young; awaited = λ e. cc e })
    ]

    reset-IsFresh :
        (p : Peer noise hs) (mode : DataPath)
        → IsFresh now p
        → IsFresh now (reset_handshake noise hs (record p { mode = mode; phase_start = now }))
    unfolding reset_handshake is_some
    reset-IsFresh p mode v = record { young = v.young; awaited = λ e. cc e }

    abandon_roaming-IsFresh :
        (p : Peer noise hs) → IsFresh now p → IsFresh now (abandon_roaming noise hs p now)
    unfolding abandon_roaming
    abandon_roaming-IsFresh p v =
        if-rule (IsFresh now) (on_direct p.mode) _ p (reset-IsFresh p path_relay v) v

    roam-IsFresh :
        (s p : Peer noise hs) (seed : ℕ)
        → IsFresh now p
        → Yields (IsFresh now) (roam noise hs s p now seed)
    unfolding roam
    roam-IsFresh s p seed v =
        if-rule (Yields (IsFresh now)) (on_direct s.mode) _ _
          (if-rule (Yields (IsFresh now)) (ltb direct_attempt (now - s.phase_start))
            (some (abandon_roaming noise hs p now, none)) (some (p, none))
            (abandon_roaming-IsFresh p v) v)
          (if-rule (Yields (IsFresh now)) (ltb reestablish_interval (now - s.last_hs1))
            (retry_direct noise hs p now seed) (some (p, none)) (retry_direct-IsFresh p seed v) v)

    pub hold-IsFresh :
        (s p : Peer noise hs) (seed : ℕ) (outs : List Output)
        → IsFresh now p
        → Yields (IsFresh now) (hold noise hs s p now seed outs)
    unfolding hold
    hold-IsFresh s p seed outs v =
        let u = roam-IsFresh s p seed v in
        elim (Option-cases (roam noise hs s p now seed)) [
          | inl e ↦ absurd (subst (Yields (IsFresh now)) e u)
          | inr ((q, o), e) ↦
              if-rule (Yields (IsFresh now))
                (on_relay noise hs s.path && s.initiator && is_some s.direct_ep) _
                (keepalive noise hs s p now outs)
                (rw e
                  (keepalive-IsFresh s q (outs ++ emitted o) (subst (Yields (IsFresh now)) e u)))
                (keepalive-IsFresh s p outs v)
        ]

    switch_mode-IsFresh :
        (p : Peer noise hs) (mode : DataPath)
        → IsFresh now p
        → IsFresh now (switch_mode noise hs p now mode)
    unfolding switch_mode
    switch_mode-IsFresh p path_none v = v
    switch_mode-IsFresh p path_direct v =
        if-rule (IsFresh now) (is_some p.relay_addr) _ p (reset-IsFresh p path_relay v) v
    switch_mode-IsFresh p path_relay v =
        if-rule (IsFresh now) (is_some p.direct_ep) _ p (reset-IsFresh p path_direct v) v

    punch_hs1-IsFresh :
        (p : Peer noise hs) (seed : ℕ) (mode : DataPath)
        → IsFresh now p
        → Yields (IsFresh now) (punch_hs1 noise hs p now seed mode)
    unfolding punch_hs1 Made
    punch_hs1-IsFresh p seed mode v = elim (Option-cases p.hs1_frame) [
      | inr (f, e) ↦ simp (e, punch_hs1) (record { young = v.young; awaited = v.awaited })
      | inl e ↦ elim (Option-cases (make_hs1 noise hs p seed)) [
        | inl g ↦ absurd (subst Made g (make_hs1-returns p seed))
        | inr (none, g) ↦ simp (e, g, punch_hs1) v
        | inr (some m, g) ↦ simp (e, g, punch_hs1) (record { young = v.young; awaited = v.awaited })
      ]
    ]

    punch-IsFresh :
        (p : Peer noise hs) (seed : ℕ) (mode : DataPath)
        → IsFresh now p
        → Yields (IsFresh now) (punch noise hs p now seed mode)
    unfolding punch punch_probe frame
    punch-IsFresh p seed mode v =
        if-rule (Yields (IsFresh now)) (p.initiator && leb hs1_resend_interval (now - p.last_hs1))
          (punch_hs1 noise hs p now seed mode) (punch_probe noise hs p mode)
          (punch_hs1-IsFresh p seed mode v) v

    pub attempt-IsFresh :
        (accepts : Output → Bool) (s : Peer noise hs) (seed : ℕ)
        → IsFresh now s
        → Yields (IsFresh now) (attempt noise hs accepts s now seed)
    unfolding attempt
    attempt-IsFresh accepts s seed v =
        let u = punch-IsFresh s seed s.mode v in
        elim (Option-cases (punch noise hs s now seed s.mode)) [
          | inl e ↦ absurd (subst (Yields (IsFresh now)) e u)
          | inr ((q, o), e) ↦
              let w : IsFresh now q = subst (Yields (IsFresh now)) e u in
              rw (e, attempt)
                (if-rule (IsFresh now)
                  (went accepts o && ltb (attempt_for s.mode) (now - s.phase_start)) _ q
                  (switch_mode-IsFresh q s.mode w) w)
        ]

    pub refresh_hs3-IsFresh :
        (s : Peer noise hs) → IsFresh now s → IsFresh now (refresh_hs3 noise hs s now).0
    unfolding refresh_hs3 resend_hs3
    refresh_hs3-IsFresh s v =
        if-rule (λ (r : Peer noise hs × Option Output). IsFresh now r.0)
          (s.established && s.hs3_pending && ltb hs1_resend_interval (now - s.last_hs3))
          (resend_hs3 noise hs s now) (s, none)
          (elim (Option-cases s.hs3_frame) [
            | inl e ↦ simp (e, resend_hs3) v
            | inr (f, e) ↦
                simp (e, resend_hs3)
                  (if-rule (λ (r : Peer noise hs × Option Output). IsFresh now r.0)
                    (not s.hs3_pending) (s, none) _ v
                    (record { young = v.young; awaited = v.awaited }))
          ])
          v

    pub force_rehandshake-IsFresh :
        (p : Peer noise hs) → IsFresh now (force_rehandshake noise hs p now)
    unfolding force_rehandshake reset_handshake is_some
    force_rehandshake-IsFresh p = record { young = λ e. cc e; awaited = λ e. cc e }
