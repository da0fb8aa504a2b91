-- ===== src/Peer/Run/Standing.antt =====
-- peer.go: a tick leaves a session of the peer that it was made for.
use network_project.Prelude.{
  ℕ, ◌-◌, inl, inr, Bool, not, ◌&&◌, List, [], ◌++◌, Option, none, some, Bytes, ltb, if-rule,
  Option-cases, Result,
}
use mathlib.Core.Path.{subst}
use network_project.Noisework.Cipher.{Noise}
use network_project.Peer.Disco.{
  keepalive_interval, direct_attempt, reestablish_interval, hs1_resend_interval,
}
use network_project.Peer.State.{Handshakes, Output, Peer, session_max_age}
use network_project.Peer.Data.{SendError, encrypt, send_payload}
use network_project.Peer.Handshake.{resend_hs3, on_relay}
use network_project.Peer.Handshake.Identity.{Authentic}
use network_project.Peer.Run.{
  is_some, on_direct, went, emitted, attempt_for, punch, retry_direct, abandon_roaming,
  force_rehandshake, expire_responder, attempt, keepalive, roam, hold, refresh_hs3, drive, tick,
}
use network_project.Peer.Run.Keeping.{
  KeepsAfter, Keeps-Authentic, switch_mode-Keeps, abandon_roaming-Keeps, expire_responder-Keeps,
  punch-Keeps, retry_direct-Keeps, resend_hs3-Keeps, force_rehandshake-Authentic, Sealed,
  encrypt-Sealed,
}

module _ (noise : Noise) (hs : Handshakes noise) where
  abbrev pub Held {ℓ} : {B : Type ℓ} → Bytes → Option (Peer noise hs × B) → Type 0
  Held key none = Unit {0}
  Held key (some (q, _)) = Authentic noise hs key q

  module _ (key : Bytes) (now : ℕ) where
    Kept-Held :
        (p : Peer noise hs) (r : Option (Peer noise hs × Option Output))
        → KeepsAfter noise hs p r
        → Authentic noise hs key p
        → Held key r
    Kept-Held p none k v = tt
    Kept-Held p (some (q, o)) k v = Keeps-Authentic noise hs key p q k v

    pub send_payload-Held :
        (p : Peer noise hs) (payload : Bytes)
        → Authentic noise hs key p
        → Held key (send_payload noise hs p now payload)
    unfolding send_payload
    send_payload-Held p payload v =
        let u = encrypt-Sealed noise hs key p now payload v in
        elim (Option-cases (encrypt noise hs p now payload)) [
          | inl e ↦ rw (e, send_payload) tt
          | inr ((q, r), e) ↦ rw (e, send_payload) (subst (Sealed noise hs key) e u)
        ]

    keepalive-Held :
        (s p : Peer noise hs) (outs : List Output)
        → Authentic noise hs key p
        → Held key (keepalive noise hs s p now outs)
    unfolding keepalive
    keepalive-Held s p outs v =
        let u = send_payload-Held p [] v in
        let Good = λ (r : Option (Peer noise hs × List Output)). Held key r in
        elim (Option-cases (send_payload noise hs p now [])) [
          | inl e ↦
              if-rule Good (ltb keepalive_interval (now - s.last_sent)) _ (some (p, outs)) (rw e tt)
                v
          | inr ((q, r), e) ↦
              let w : Authentic noise hs key q =
                subst (λ (x : Option (Peer noise hs × Result SendError Output)). Held key x) e u in
              if-rule Good (ltb keepalive_interval (now - s.last_sent)) _ (some (p, outs)) (rw e w)
                v
        ]

    roam-Held :
        (s p : Peer noise hs) (seed : ℕ)
        → Authentic noise hs key p
        → Held key (roam noise hs s p now seed)
    unfolding roam
    roam-Held s p seed v =
        let Good = λ (r : Option (Peer noise hs × Option Output)). Held key r in
        if-rule Good (on_direct s.mode) _ _
          (if-rule Good (ltb direct_attempt (now - s.phase_start))
            (some (abandon_roaming noise hs p now, none)) (some (p, none))
            (Keeps-Authentic noise hs key p _ (abandon_roaming-Keeps noise hs p now) v) v)
          (if-rule Good (ltb reestablish_interval (now - s.last_hs1))
            (retry_direct noise hs p now seed) (some (p, none))
            (Kept-Held p (retry_direct noise hs p now seed) (retry_direct-Keeps noise hs p now seed)
              v)
            v)

    hold-Held :
        (s p : Peer noise hs) (seed : ℕ) (outs : List Output)
        → Authentic noise hs key p
        → Held key (hold noise hs s p now seed outs)
    unfolding hold
    hold-Held s p seed outs v =
        let u = roam-Held s p seed v in
        let Good = λ (r : Option (Peer noise hs × List Output)). Held key r in
        let go = if-rule Good (on_relay noise hs s.path && s.initiator && is_some s.direct_ep) in
        elim (Option-cases (roam noise hs s p now seed)) [
          | inl e ↦ go _ (keepalive noise hs s p now outs) (rw e tt) (keepalive-Held s p outs v)
          | inr ((q, o), e) ↦
              go _ (keepalive noise hs s p now outs)
                (rw e (
                  keepalive-Held s q (outs ++ emitted o)
                    (subst (λ (x : Option (Peer noise hs × Option Output)). Held key x) e u)))
                (keepalive-Held s p outs v)
        ]

    attempt-Held :
        (accepts : Output → Bool) (s : Peer noise hs) (seed : ℕ)
        → Authentic noise hs key s
        → Held key (attempt noise hs accepts s now seed)
    unfolding attempt
    attempt-Held accepts s seed v =
        let u =
          Kept-Held s (punch noise hs s now seed s.mode) (punch-Keeps noise hs s now seed s.mode)
            v in
        elim (Option-cases (punch noise hs s now seed s.mode)) [
          | inl e ↦ rw (e, attempt) tt
          | inr ((q, o), e) ↦
              let w : Authentic noise hs key q =
                subst (λ (x : Option (Peer noise hs × Option Output)). Held key x) e u in
              rw (e, attempt)
                (if-rule (Authentic noise hs key)
                  (went accepts o && ltb (attempt_for s.mode) (now - s.phase_start)) _ q
                  (Keeps-Authentic noise hs key q _ (switch_mode-Keeps noise hs q now s.mode) w) w)
        ]

    pub tick-Held :
        (accepts : Output → Bool) (p : Peer noise hs) (seed : ℕ)
        → Authentic noise hs key p
        → Held key (tick noise hs accepts p now seed)
    unfolding tick drive refresh_hs3
    tick-Held accepts p seed v =
        let s = expire_responder noise hs p now in
        let w = Keeps-Authentic noise hs key p s (expire_responder-Keeps noise hs p now) v in
        let fresh =
          if-rule (λ (r : Peer noise hs × Option Output). Authentic noise hs key r.0)
            (s.established && s.hs3_pending && ltb hs1_resend_interval (now - s.last_hs3))
            (resend_hs3 noise hs s now) (s, none)
            (Keeps-Authentic noise hs key s _ (resend_hs3-Keeps noise hs s now) w) w in
        let Good = λ (r : Option (Peer noise hs × List Output)). Held key r in
        if-rule Good (s.established && ltb session_max_age (now - s.sess_since))
          (some (force_rehandshake noise hs s now, [])) _
          (force_rehandshake-Authentic noise hs key s now w)
          (if-rule Good (not s.established) (attempt noise hs accepts s now seed) _
            (attempt-Held accepts s seed w)
            (hold-Held s (refresh_hs3 noise hs s now).0 seed
              (emitted (refresh_hs3 noise hs s now).1) fresh))
