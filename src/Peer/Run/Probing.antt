-- ===== src/Peer/Run/Probing.antt =====
-- peer.go: what a peer without a session sends on a tick, and how it turns to its other path.
use network_project.Prelude.{
  ℕ, ◌-◌, ◌≡◌, refl, ◌≢◌, ◌⊎◌, inl, inr, Bool, true, false, ◌&&◌, List, [], ◌∷◌, Option, none, some,
  Bytes, ltb, leb, if-rule, Option-cases,
}
use network_project.Net.{UdpAddr}
use network_project.Noisework.Cipher.{Noise}
use network_project.Peer.Disco.{DataPath, path_none, path_direct, path_relay, hs1_resend_interval}
use network_project.Peer.State.{Handshakes, Output, direct, relayed, Peer, send_frame}
use network_project.Record.{frame, type_hs1, type_probe}
use network_project.Peer.Handshake.{reset_handshake, address_for}
use network_project.Peer.Run.{
  is_some, attempt_for, make_hs1, punch_hs1, punch_probe, punch, switch_mode,
}
use network_project.Peer.Run.Returning.{Compact, frame-some}

abbrev pub other : DataPath → DataPath
other path_direct = path_relay
other path_relay = path_direct
other path_none = path_none

module _ (noise : Noise) (hs : Handshakes noise) where
  -- The handshake's own message 1 is written without an error, for the keys of the peer.
  abbrev pub Begins : Bytes → Type 0
  Begins key =
      (seed : ℕ)
      → (i i' : hs.Initiator) × (m : Bytes) × (hs.new_initiator seed key ≡ some i)
        × (hs.message1 i ≡ some (m, i'))

  -- without a session, with both paths, on one of them since `since`
  pub record Trying (p : Peer noise hs) (mode : DataPath) (since : ℕ) : Type 0 where
    pub unestablished : p.established ≡ false
    pub on : p.mode ≡ mode
    pub from : p.phase_start ≡ since
    pub ep : UdpAddr
    pub has_ep : p.direct_ep ≡ some ep
    pub relay : UdpAddr
    pub has_relay : p.relay_addr ≡ some relay

  -- a peer that has turned to `mode` at `now`, with no message of an earlier handshake
  abbrev pub Turned : DataPath → ℕ → Peer noise hs → Type 0
  Turned mode now q = Trying q mode now × (q.hs1_frame ≡ none) × (q.initiator_hs ≡ none)

  module _ (c : Compact noise hs) (accepts : Output → Bool)
      (taken : (o : Output) → accepts o ≡ true) where
    unfoldable pub Punched : Peer noise hs → Option (Peer noise hs × Option Output) → Type 0
    Punched p none = ⊥
    Punched p (some (q, none)) = ⊥
    Punched p (some (q, some o)) =
        (q.established ≡ p.established)
        × (q.mode ≡ p.mode)
        × (q.phase_start ≡ p.phase_start)
        × (q.direct_ep ≡ p.direct_ep)
        × (q.relay_addr ≡ p.relay_addr)
        × (q.peer_static ≡ p.peer_static)

    addressed :
        (p : Peer noise hs) (mode : DataPath) (since : ℕ) (f : Bytes)
        → Trying p mode since
        → mode ≢ path_none
        → (o : Output) × (send_frame noise hs p mode (address_for noise hs p mode) f ≡ some o)
    unfolding send_frame address_for
    addressed p path_none since f v h = absurd (h refl)
    addressed p path_direct since f v h = (direct v.ep f, simp v.has_ep refl)
    addressed p path_relay since f v h = (relayed p.id f, refl)

    make_hs1-some :
        (p : Peer noise hs) (seed : ℕ)
        → Begins p.peer_static
        → (i : hs.Initiator) × (f : Bytes) × (make_hs1 noise hs p seed ≡ some (some (i, f)))
    unfolding make_hs1
    make_hs1-some p seed b =
        let (i, i', m, e, g) = b seed in
        let (f, w) = frame-some type_hs1 m (c.first i i' m g) in
        (i', f, simp (e, g, w, make_hs1) refl)

    punch_hs1-Punched :
        (p : Peer noise hs) (now seed : ℕ) (mode : DataPath) (since : ℕ)
        → Begins p.peer_static
        → Trying p mode since
        → mode ≢ path_none
        → Punched p (punch_hs1 noise hs p now seed mode)
    unfolding punch_hs1 Punched
    punch_hs1-Punched p now seed mode since b v h = elim (Option-cases p.hs1_frame) [
      | inr (f, e) ↦
          let (o, a) = addressed p mode since f v h in
          simp (e, a, punch_hs1) (refl, refl, refl, refl, refl, refl)
      | inl e ↦
          let (i, f, g) = make_hs1-some p seed b in
          let q = record p { initiator_hs = some i; hs1_frame = some f } in
          let same : Trying q mode since = record {
            unestablished = v.unestablished;
            on = v.on;
            from = v.from;
            ep = v.ep;
            has_ep = v.has_ep;
            relay = v.relay;
            has_relay = v.has_relay;
          } in
          let (o, a) = addressed q mode since f same h in
          simp (e, g, a, punch_hs1) (refl, refl, refl, refl, refl, refl)
    ]

    punch_probe-Punched :
        (p : Peer noise hs) (mode : DataPath) (since : ℕ)
        → Trying p mode since
        → mode ≢ path_none
        → Punched p (punch_probe noise hs p mode)
    unfolding punch_probe Punched frame
    punch_probe-Punched p mode since v h =
        let (o, a) = addressed p mode since (type_probe ∷ 0 ∷ 0 ∷ []) v h in
        simp (a, punch_probe) (refl, refl, refl, refl, refl, refl)

    pub punch-Punched :
        (p : Peer noise hs) (now seed : ℕ) (mode : DataPath) (since : ℕ)
        → Begins p.peer_static
        → Trying p mode since
        → mode ≢ path_none
        → Punched p (punch noise hs p now seed mode)
    unfolding punch
    punch-Punched p now seed mode since b v h =
        if-rule (Punched p) (p.initiator && leb hs1_resend_interval (now - p.last_hs1))
          (punch_hs1 noise hs p now seed mode) (punch_probe noise hs p mode)
          (punch_hs1-Punched p now seed mode since b v h) (punch_probe-Punched p mode since v h)

    pub switch_mode-Turned :
        (q : Peer noise hs) (now : ℕ) (mode : DataPath) (since : ℕ)
        → Trying q mode since
        → mode ≢ path_none
        → Turned (other mode) now (switch_mode noise hs q now mode)
    unfolding switch_mode reset_handshake is_some
    switch_mode-Turned q now path_none since v h = absurd (h refl)
    switch_mode-Turned q now path_direct since v h =
        simp (v.has_relay, switch_mode)
          (
            record {
              unestablished = v.unestablished;
              on = refl;
              from = refl;
              ep = v.ep;
              has_ep = v.has_ep;
              relay = v.relay;
              has_relay = refl;
            },
            refl,
            refl,
          )
    switch_mode-Turned q now path_relay since v h =
        simp (v.has_ep, switch_mode)
          (
            record {
              unestablished = v.unestablished;
              on = refl;
              from = refl;
              ep = v.ep;
              has_ep = refl;
              relay = v.relay;
              has_relay = v.has_relay;
            },
            refl,
            refl,
          )

    abbrev pub overdue : DataPath → ℕ → ℕ → Bool
    overdue mode since now = ltb (attempt_for mode) (now - since)

    unfoldable pub Ticked : Bytes → DataPath → ℕ → ℕ → Option (Peer noise hs × List Output) → Type 0
    Ticked key mode since now none = ⊥
    Ticked key mode since now (some (q, _)) =
        (q.peer_static ≡ key)
        × (((overdue mode since now ≡ true) × Turned (other mode) now q)
            ⊎ ((overdue mode since now ≡ false) × Trying q mode since))
