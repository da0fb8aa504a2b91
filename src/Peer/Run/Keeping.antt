-- ===== src/Peer/Run/Keeping.antt =====
-- peer.go: what the steps of `Run` leave alone. None gives a peer a session of another handshake.
use network_project.Prelude.{
  ℕ, ◌≡◌, refl, inl, inr, not, ◌++◌, Option, none, some, Bytes, length, ltb, if-rule, Option-cases,
  Result-cases,
}
use network_project.Noisework.Cipher.{Noise}
use network_project.Noisework.Session.{send}
use network_project.Peer.Disco.{DataPath, path_none, path_direct, path_relay}
use network_project.Peer.State.{Installed, Handshakes, Output, Peer}
use network_project.Record.{frame, type_data}
use network_project.Peer.Data.{DataFrame, seal_data, encrypt, limit_on, put_u64}
use network_project.Peer.Handshake.{reset_handshake, drop_responder, resend_hs3, quietly}
use network_project.Peer.Handshake.Identity.{Authentic, Authentic-same}
use network_project.Peer.Handshake.Frames.{moved_on}
use network_project.Peer.Run.{
  start_run, expire_responder, make_hs1, punch_hs1, punch_probe, punch, switch_mode, retry_direct,
  abandon_roaming, force_rehandshake, is_some, on_direct,
}

module _ (noise : Noise) (hs : Handshakes noise) where
  open hs use {Initiator, Responder, new_initiator, message1}

  -- the same expected key and the same session
  abbrev pub Keeps : Peer noise hs → Peer noise hs → Type 0
  Keeps p q = (q.peer_static ≡ p.peer_static) × (q.sess ≡ p.sess)

  abbrev pub KeepsAfter : Peer noise hs → Option (Peer noise hs × Option Output) → Type 0
  KeepsAfter p none = Unit {0}
  KeepsAfter p (some (q, _)) = Keeps p q

  pub switch_mode-Keeps :
      (p : Peer noise hs) (now : ℕ) (mode : DataPath) → Keeps p (switch_mode noise hs p now mode)
  unfolding switch_mode reset_handshake
  switch_mode-Keeps p now path_none = (refl, refl)
  switch_mode-Keeps p now path_direct =
      if-rule (Keeps p) (is_some p.relay_addr) _ p (refl, refl) (refl, refl)
  switch_mode-Keeps p now path_relay =
      if-rule (Keeps p) (is_some p.direct_ep) _ p (refl, refl) (refl, refl)

  pub abandon_roaming-Keeps :
      (p : Peer noise hs) (now : ℕ) → Keeps p (abandon_roaming noise hs p now)
  unfolding abandon_roaming reset_handshake
  abandon_roaming-Keeps p now = if-rule (Keeps p) (on_direct p.mode) _ p (refl, refl) (refl, refl)

  pub expire_responder-Keeps :
      (p : Peer noise hs) (now : ℕ) → Keeps p (expire_responder noise hs p now)
  unfolding expire_responder drop_responder
  expire_responder-Keeps p now = if-rule (Keeps p) _ _ p (refl, refl) (refl, refl)

  punch_hs1-Keeps :
      (p : Peer noise hs) (now seed : ℕ) (mode : DataPath)
      → KeepsAfter p (punch_hs1 noise hs p now seed mode)
  unfolding punch_hs1
  punch_hs1-Keeps p now seed mode = elim (Option-cases p.hs1_frame) [
    | inr (f, e) ↦ simp (e, punch_hs1) (refl, refl)
    | inl e ↦ elim (Option-cases (make_hs1 noise hs p seed)) [
      | inl g ↦ simp (e, g, punch_hs1) tt
      | inr (none, g) ↦ simp (e, g, punch_hs1) (refl, refl)
      | inr (some m, g) ↦ simp (e, g, punch_hs1) (refl, refl)
    ]
  ]

  pub punch-Keeps :
      (p : Peer noise hs) (now seed : ℕ) (mode : DataPath)
      → KeepsAfter p (punch noise hs p now seed mode)
  unfolding punch punch_probe frame
  punch-Keeps p now seed mode =
      if-rule (KeepsAfter p) _ (punch_hs1 noise hs p now seed mode) (punch_probe noise hs p mode)
        (punch_hs1-Keeps p now seed mode) (refl, refl)

  pub retry_direct-Keeps :
      (p : Peer noise hs) (now seed : ℕ) → KeepsAfter p (retry_direct noise hs p now seed)
  unfolding retry_direct drop_responder
  retry_direct-Keeps p now seed = elim (Option-cases (make_hs1 noise hs p seed)) [
    | inl g ↦ simp (g, retry_direct) tt
    | inr (none, g) ↦ simp (g, retry_direct) (refl, refl)
    | inr (some m, g) ↦ simp (g, retry_direct) (refl, refl)
  ]

  pub resend_hs3-Keeps : (p : Peer noise hs) (now : ℕ) → Keeps p (resend_hs3 noise hs p now).0
  unfolding resend_hs3
  resend_hs3-Keeps p now = elim (Option-cases p.hs3_frame) [
    | inl e ↦ simp (e, resend_hs3) (refl, refl)
    | inr (f, e) ↦
        simp (e, resend_hs3)
          (if-rule (λ (r : Peer noise hs × Option Output). Keeps p r.0) (not p.hs3_pending) _ _
            (refl, refl) (refl, refl))
  ]

  pub Keeps-Authentic :
      (key : Bytes) (p q : Peer noise hs)
      → Keeps p q
      → Authentic noise hs key p
      → Authentic noise hs key q
  Keeps-Authentic key p q k v = Authentic-same noise hs key p q k.0 k.1 v

  abbrev pub Sealed : Bytes → Option (Peer noise hs × DataFrame noise hs) → Type 0
  Sealed key none = Unit {0}
  Sealed key (some (q, _)) = Authentic noise hs key q

  seal_data-Sealed :
      (key : Bytes) (p : Peer noise hs) (now : ℕ) (sess : Installed noise) (payload : Bytes)
      → Authentic noise hs key p
      → p.sess ≡ some sess
      → Sealed key (seal_data noise hs p now sess payload)
  unfolding seal_data
  seal_data-Sealed key p now sess payload v i =
      let s = (send noise sess.session payload).0 in
      elim (Result-cases (send noise sess.session payload).1) [
        | inr (x, e) ↦ rw (e, seal_data) (moved_on noise hs key p _ sess s v i refl refl)
        | inl ((nonce, cipher), e) ↦
            elim (Option-cases (frame type_data (put_u64 nonce ++ cipher))) [
              | inl f ↦ simp (e, f, seal_data) tt
              | inr (w, f) ↦ simp (e, f, seal_data) (moved_on noise hs key p _ sess s v i refl refl)
            ]
      ]

  pub encrypt-Sealed :
      (key : Bytes) (p : Peer noise hs) (now : ℕ) (payload : Bytes)
      → Authentic noise hs key p
      → Sealed key (encrypt noise hs p now payload)
  unfolding encrypt
  encrypt-Sealed key p now payload v = elim (Option-cases p.sess) [
    | inl e ↦ simp (e, encrypt) v
    | inr (sess, e) ↦
        simp (e, encrypt)
          (if-rule (Sealed key) (ltb (limit_on noise hs p.path) (length payload)) _
            (seal_data noise hs p now sess payload) v (seal_data-Sealed key p now sess payload v e))
  ]

  pub start_run-Keeps :
      (p : Peer noise hs) (now : ℕ) → KeepsAfter p (quietly noise hs (start_run noise hs p now))
  unfolding start_run quietly
  start_run-Keeps p now = elim (Option-cases p.direct_ep) [
    | inr (a, d) ↦ simp (d, start_run) (refl, refl)
    | inl d ↦ elim (Option-cases p.relay_addr) [
      | inr (a, r) ↦ simp (d, r, start_run) (refl, refl)
      | inl r ↦ simp (d, r, start_run) tt
    ]
  ]

  pub force_rehandshake-Authentic :
      (key : Bytes) (p : Peer noise hs) (now : ℕ)
      → Authentic noise hs key p
      → Authentic noise hs key (force_rehandshake noise hs p now)
  unfolding force_rehandshake reset_handshake
  force_rehandshake-Authentic key p now v = record { expected = v.expected; holder = λ x e. cc e }
