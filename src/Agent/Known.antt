-- ===== src/Agent/Known.antt =====
-- agent.go: the keys that the sessions of an agent have authenticated.
use network_project.Prelude.{
  ℕ, ◌≡◌, refl, sym, inl, inr, Bool, false, List, [], ◌∷◌, ◌++◌, Option, none, some, Bytes,
  Bool-cases, Option-cases, equal,
}
use mathlib.Core.Path.{subst}
use network_project.Prelude.Assoc.{bytes_Eq, lookup, insert}
use network_project.Net.{UdpAddr}
use network_project.Noisework.Cipher.{Noise}
use network_project.Peer.State.{Installed, Handshakes, Output, Peer, new_peer, set_direct_ep}
use network_project.Peer.Handshake.{handle_frame}
use network_project.Peer.Handshake.Identity.{Authentic, After, Authentic-same}
use network_project.Peer.Handshake.Frames.{handle_frame-After}
use network_project.Peer.Handshake.{quietly}
use network_project.Peer.Run.Keeping.{KeepsAfter, Keeps-Authentic, start_run-Keeps}
use network_project.Peer.Run.Standing.{Held, tick-Held, send_payload-Held}
use network_project.Protocol.{PeerInfo}
use network_project.Agent.{
  Agent, parse_public_key_hex, seen_names, track, refresh, first_endpoint, apply_info, apply_infos,
  apply_peers, attach_bridge, hand_over, receive, demux, through_door,
}
use network_project.Agent.Steps.{
  Announced, Reach, created, listed, attached, received, started, ticked, sent, earlier_Announced,
}
use network_project.Agent.Trust.{
  AllTrusted, lookup-AllTrusted, insert-AllTrusted, prune-AllTrusted, later-AllTrusted,
}

module _ (noise : Noise) (hs : Handshakes noise) (World : Type 0)
    (sink_send : World → Bytes → Bytes → World × Bool) (resolve : Bytes → Option UdpAddr)
    (addr_string : UdpAddr → Bytes) (hex_decode : Bytes → Option Bytes) where
  abbrev Sound : List PeerInfo → Agent noise hs World sink_send → Type 0
  Sound h a = AllTrusted noise hs World sink_send resolve addr_string hex_decode h a.name a.peers

  -- a step of the peer under a name
  moved-Sound :
      (h : List PeerInfo) (a : Agent noise hs World sink_send) (id : Bytes) (p q : Peer noise hs)
      → lookup id a.peers ≡ some p
      → ((key : Bytes) → Authentic noise hs key p → Authentic noise hs key q)
      → Sound h a
      → Sound h (record a { peers = insert id q a.peers })
  moved-Sound h a id p q e f v =
      let t =
        lookup-AllTrusted noise hs World sink_send resolve addr_string hex_decode h a.name id p
          a.peers e v in
      insert-AllTrusted noise hs World sink_send resolve addr_string hex_decode h a.name id q
        a.peers
        (record { key = t.key; other = t.other; announced = t.announced; held = f t.key t.held }) v

  refresh-Sound :
      (h : List PeerInfo) (a : Agent noise hs World sink_send) (info : PeerInfo) (p : Peer noise hs)
      → lookup info.id a.peers ≡ some p
      → Sound h a
      → Sound h (refresh noise hs World sink_send resolve hex_decode a info p)
  unfolding refresh set_direct_ep
  refresh-Sound h a info p e v =
      elim (Option-cases (first_endpoint noise hs World sink_send resolve hex_decode info)) [
        | inl f ↦ simp (f, refresh) v
        | inr (ep, f) ↦
            simp (f, refresh)
              (moved-Sound h a info.id p (set_direct_ep noise hs p (some ep)) e
                (λ key t. Authentic-same noise hs key p _ refl refl t) v)
      ]

  track-Sound :
      (h : List PeerInfo) (a : Agent noise hs World sink_send) (info : PeerInfo)
      → equal info.id a.name ≡ false
      → ((key : Bytes)
          → parse_public_key_hex hex_decode info.pub_key ≡ some key
          → Announced noise hs World sink_send resolve addr_string hex_decode info.id key h)
      → Sound h a
      → Sound h (track noise hs World sink_send resolve hex_decode a info)
  unfolding track new_peer
  track-Sound h a info o k v = elim (Option-cases (parse_public_key_hex hex_decode info.pub_key)) [
    | inl f ↦ simp (f, track) v
    | inr (key, f) ↦
        simp (f, track)
          (insert-AllTrusted noise hs World sink_send resolve addr_string hex_decode h a.name
            info.id _ a.peers
            (record {
              key = key;
              other = o;
              announced = k key f;
              held = record { expected = refl; holder = λ x e. cc e };
            })
            v)
  ]

  apply_info-Sound :
      (h : List PeerInfo) (a : Agent noise hs World sink_send) (info : PeerInfo)
      → ((key : Bytes)
          → parse_public_key_hex hex_decode info.pub_key ≡ some key
          → Announced noise hs World sink_send resolve addr_string hex_decode info.id key h)
      → Sound h a
      → Sound h (apply_info noise hs World sink_send resolve hex_decode a info)
  unfolding apply_info
  apply_info-Sound h a info k v = elim (Bool-cases (equal info.id a.name)) [
    | inl own ↦ rw (own, apply_info) v
    | inr o ↦ elim (Option-cases (lookup info.id a.peers)) [
      | inl e ↦ simp (o, e, apply_info) (track-Sound h a info o k v)
      | inr (p, e) ↦ simp (o, e, apply_info) (refresh-Sound h a info p e v)
    ]
  ]

  apply_infos-Sound :
      (h : List PeerInfo) (a : Agent noise hs World sink_send) (infos : List PeerInfo)
      → ((id key : Bytes)
          → Announced noise hs World sink_send resolve addr_string hex_decode id key infos
          → Announced noise hs World sink_send resolve addr_string hex_decode id key h)
      → Sound h a
      → Sound h (apply_infos noise hs World sink_send resolve hex_decode a infos)
  unfolding apply_infos
  apply_infos-Sound h a [] k v = v
  apply_infos-Sound h a (info ∷ infos) k v =
      apply_infos-Sound h (apply_info noise hs World sink_send resolve hex_decode a info) infos
        (λ id key u. k id key (inr u))
        (apply_info-Sound h a info (λ key e. k info.id key (inl (refl, e))) v)

  apply_peers-Sound :
      (h : List PeerInfo) (a : Agent noise hs World sink_send) (infos : List PeerInfo)
      → Sound h a
      → Sound (infos ++ h) (apply_peers noise hs World sink_send resolve hex_decode a infos)
  unfolding apply_peers
  apply_peers-Sound h a infos v =
      let a1 = apply_infos noise hs World sink_send resolve hex_decode a infos in
      prune-AllTrusted noise hs World sink_send resolve addr_string hex_decode (infos ++ h) a1.name
        (seen_names noise hs World sink_send a.name infos) a1.peers
        (apply_infos-Sound (infos ++ h) a infos
          (earlier_Announced noise hs World sink_send resolve addr_string hex_decode infos h)
          (later-AllTrusted noise hs World sink_send resolve addr_string hex_decode infos h a.name
            a.peers v))

  -- the agent that a datagram leaves, if its peer does not panic
  abbrev SoundAfter :
      List PeerInfo → Option (Agent noise hs World sink_send × Option Output) → Type 0
  SoundAfter h none = Unit {0}
  SoundAfter h (some (a, _)) = Sound h a

  hand_over-Sound :
      (h : List PeerInfo) (a : Agent noise hs World sink_send) (now seed : ℕ) (src : UdpAddr)
      (id frame : Bytes)
      → Sound h a
      → SoundAfter h
          (hand_over noise hs World sink_send resolve addr_string a now seed src id frame)
  unfolding hand_over
  hand_over-Sound h a now seed src id frame v = elim (Option-cases (lookup id a.peers)) [
    | inl e ↦ simp (e, hand_over) v
    | inr (p, e) ↦
        let step = handle_frame noise hs addr_string p now seed (some src) frame in
        let after : (key : Bytes) → Authentic noise hs key p → After noise hs key step =
          λ key. handle_frame-After noise hs addr_string key p now seed (some src) frame in
        elim (Option-cases step) [
          | inl f ↦ simp (e, f, hand_over) tt
          | inr ((q, out), f) ↦
              simp (e, f, hand_over)
                (moved-Sound h a id p q e (λ key t. subst (After noise hs key) f (after key t)) v)
        ]
  ]

  receive-Sound :
      (h : List PeerInfo) (a : Agent noise hs World sink_send) (now seed : ℕ) (src : UdpAddr)
      (datagram : Bytes)
      → Sound h a
      → SoundAfter h (receive noise hs World sink_send resolve addr_string a now seed src datagram)
  unfolding receive
  receive-Sound h a now seed src datagram v =
      elim (Option-cases
        (through_door noise hs World sink_send resolve addr_string a src datagram)) [
          | inl e ↦ simp (e, receive) v
          | inr ((ext, frame), e) ↦
              elim (Option-cases (demux noise hs World sink_send resolve addr_string a ext frame)) [
                | inl f ↦ simp (e, f, receive) v
                | inr ((id, g), f) ↦ simp (e, f, receive) (hand_over-Sound h a now seed ext id g v)
              ]
        ]

  Reach-Sound :
      (h : List PeerInfo) (a : Agent noise hs World sink_send)
      → Reach noise hs World sink_send resolve addr_string hex_decode h a
      → Sound h a
  unfolding attach_bridge quietly
  Reach-Sound _ _ (created name door relay) = tt
  Reach-Sound _ _ (listed h a infos r) = apply_peers-Sound h a infos (Reach-Sound h a r)
  Reach-Sound _ _ (attached h a b r) = Reach-Sound h a r
  Reach-Sound _ _ (received h a a' out now seed src datagram r e) =
      subst (SoundAfter h) e (receive-Sound h a now seed src datagram (Reach-Sound h a r))
  Reach-Sound _ _ (started h a id p q now r e f) =
      let kept = start_run-Keeps noise hs p now in
      moved-Sound h a id p q e
        (λ key t.
          Keeps-Authentic noise hs key p q
            (subst (λ z. KeepsAfter noise hs p (quietly noise hs z)) f kept) t)
        (Reach-Sound h a r)
  Reach-Sound _ _ (ticked h a id p q outs accepts now seed r e f) =
      moved-Sound h a id p q e
        (λ key t. subst (Held noise hs key) f (tick-Held noise hs key now accepts p seed t))
        (Reach-Sound h a r)
  Reach-Sound _ _ (sent h a id p q res now payload r e f) =
      moved-Sound h a id p q e
        (λ key t. subst (Held noise hs key) f (send_payload-Held noise hs key now p payload t))
        (Reach-Sound h a r)

  -- Whatever peer lists and datagrams an agent is given, from anyone, and whenever its peers tick and
  -- send: a session of a peer that it tracks authenticated a key that a peer list gave for the name of
  -- that peer, and the name is not the agent's own.
  pub Reach-Known :
      (h : List PeerInfo) (a : Agent noise hs World sink_send) (id : Bytes) (p : Peer noise hs)
      (x : Installed noise)
      → Reach noise hs World sink_send resolve addr_string hex_decode h a
      → lookup id a.peers ≡ some p
      → p.sess ≡ some x
      → (equal id a.name ≡ false)
        × Announced noise hs World sink_send resolve addr_string hex_decode id x.peer_static h
  Reach-Known h a id p x r e f =
      let t =
        lookup-AllTrusted noise hs World sink_send resolve addr_string hex_decode h a.name id p
          a.peers e (Reach-Sound h a r) in
      (
        t.other,
        subst (λ k. Announced noise hs World sink_send resolve addr_string hex_decode id k h)
            (sym (t.held.holder x f).0) t.announced,
      )
