-- ===== src/Peer/Run/Turning.antt =====
-- peer.go: what a tick makes of a peer without a session.
use network_project.Prelude.{
  ℕ, ◌≡◌, refl, sym, ◌∙◌, ◌≢◌, inl, inr, Bool, true, false, List, [], ◌∷◌, Option, none, some,
  arith, Bytes, if◌then◌else◌, Bool-cases, if-rule, Option-cases,
}
use mathlib.Core.Path.{subst}
use network_project.Noisework.Cipher.{Noise}
use network_project.Peer.Disco.{DataPath, path_none}
use network_project.Peer.State.{Handshakes, Output, Peer}
use network_project.Peer.Handshake.{drop_responder}
use network_project.Peer.Run.{punch, switch_mode, expire_responder, hs2_stale, attempt, drive, tick}
use network_project.Peer.Run.Keeping.{switch_mode-Keeps, expire_responder-Keeps}
use network_project.Peer.Run.Returning.{Compact}
use network_project.Peer.Run.Probing.{
  Begins, Trying, Punched, Ticked, overdue, punch-Punched, switch_mode-Turned,
}

module _ (noise : Noise) (hs : Handshakes noise) (c : Compact noise hs) (accepts : Output → Bool)
    (taken : (o : Output) → accepts o ≡ true) where
  turn-Ticked :
      (q : Peer noise hs) (key : Bytes) (mode : DataPath) (since now : ℕ) (outs : List Output)
      → q.peer_static ≡ key
      → Trying noise hs q mode since
      → mode ≢ path_none
      → Ticked noise hs c accepts taken key mode since now (
          some (
            if overdue noise hs c accepts taken mode since now
                then switch_mode noise hs q now mode
                else q,
            outs,
          ))
  unfolding Ticked
  turn-Ticked q key mode since now outs k v h =
      elim (Bool-cases (overdue noise hs c accepts taken mode since now)) [
        | inl e ↦ rw e (
          (switch_mode-Keeps noise hs q now mode).0 ∙ k,
          inl (refl, switch_mode-Turned noise hs c accepts taken q now mode since v h),
        )
        | inr e ↦ rw e (k, inr (refl, v))
      ]

  attempt-Ticked :
      (s : Peer noise hs) (now seed : ℕ)
      → Begins noise hs s.peer_static
      → Trying noise hs s s.mode s.phase_start
      → s.mode ≢ path_none
      → Ticked noise hs c accepts taken s.peer_static s.mode s.phase_start now
          (attempt noise hs accepts s now seed)
  unfolding attempt Punched
  attempt-Ticked s now seed b v h =
      let u = punch-Punched noise hs c accepts taken s now seed s.mode s.phase_start b v h in
      elim (Option-cases (punch noise hs s now seed s.mode)) [
        | inl e ↦ absurd (subst (Punched noise hs c accepts taken s) e u)
        | inr ((q, none), e) ↦ absurd (subst (Punched noise hs c accepts taken s) e u)
        | inr ((q, some o), e) ↦
            let w : Punched noise hs c accepts taken s (some (q, some o)) =
              subst (Punched noise hs c accepts taken s) e u in
            let same : Trying noise hs q s.mode s.phase_start = record {
              unestablished = w.0 ∙ v.unestablished;
              on = w.1;
              from = w.2;
              ep = v.ep;
              has_ep = w.3 ∙ v.has_ep;
              relay = v.relay;
              has_relay = w.4 ∙ v.has_relay;
            } in
            rw (e, attempt, taken o)
              (turn-Ticked q s.peer_static s.mode s.phase_start now (o ∷ []) w.5 same h)
      ]

  expire_responder-Trying :
      (p : Peer noise hs) (now : ℕ) (mode : DataPath) (since : ℕ)
      → Trying noise hs p mode since
      → Trying noise hs (expire_responder noise hs p now) mode since
  unfolding expire_responder drop_responder
  expire_responder-Trying p now mode since v =
      if-rule (λ (q : Peer noise hs). Trying noise hs q mode since) (hs2_stale noise hs p now)
        (drop_responder noise hs p) p
        (record {
          unestablished = v.unestablished;
          on = v.on;
          from = v.from;
          ep = v.ep;
          has_ep = v.has_ep;
          relay = v.relay;
          has_relay = v.has_relay;
        })
        v

  drive_lem :
      (s : Peer noise hs) (now seed : ℕ)
      → s.established ≡ false
      → drive noise hs accepts s now seed ≡ attempt noise hs accepts s now seed
  unfolding drive
  drive_lem s now seed e = ground (arith, e)

  Ticked-at :
      (s : Peer noise hs) (key : Bytes) (now : ℕ) (mode : DataPath) (since : ℕ)
      (r : Option (Peer noise hs × List Output))
      → s.mode ≡ mode
      → s.phase_start ≡ since
      → s.peer_static ≡ key
      → Ticked noise hs c accepts taken s.peer_static s.mode s.phase_start now r
      → Ticked noise hs c accepts taken key mode since now r
  Ticked-at s key now mode since r e f k t =
      subst (λ x. Ticked noise hs c accepts taken x mode since now r) k
        (subst (λ x. Ticked noise hs c accepts taken s.peer_static mode x now r) f
          (subst (λ x. Ticked noise hs c accepts taken s.peer_static x s.phase_start now r) e t))

  pub tick-Ticked :
      (p : Peer noise hs) (now seed : ℕ) (mode : DataPath) (since : ℕ)
      → Begins noise hs p.peer_static
      → Trying noise hs p mode since
      → mode ≢ path_none
      → Ticked noise hs c accepts taken p.peer_static mode since now
          (tick noise hs accepts p now seed)
  unfolding tick
  tick-Ticked p now seed mode since b v h =
      let s = expire_responder noise hs p now in
      let w = expire_responder-Trying p now mode since v in
      let k : s.peer_static ≡ p.peer_static = (expire_responder-Keeps noise hs p now).0 in
      let here : Trying noise hs s s.mode s.phase_start = record {
        unestablished = w.unestablished;
        on = refl;
        from = refl;
        ep = w.ep;
        has_ep = w.has_ep;
        relay = w.relay;
        has_relay = w.has_relay;
      } in
      let t =
        attempt-Ticked s now seed (subst (Begins noise hs) (sym k) b) here
          (λ e. h (sym w.on ∙ e)) in
      Ticked-at s p.peer_static now mode since (drive noise hs accepts s now seed) w.on w.from k (
        subst (Ticked noise hs c accepts taken s.peer_static s.mode s.phase_start now)
          (sym (drive_lem s now seed w.unestablished)) t)
