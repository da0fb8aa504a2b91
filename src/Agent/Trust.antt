-- ===== src/Agent/Trust.antt =====
-- agent.go: the table of the peers that an agent tracks.
use network_project.Prelude.{
  ◌≡◌, inl, inr, Bool, false, List, [], ◌∷◌, ◌++◌, Option, some, arith, Bytes, Bool-cases, if-rule,
  equal, equal_iff,
}
use mathlib.Core.Path.{subst}
use network_project.Prelude.Assoc.{bytes_Eq, lookup, insert}
use network_project.Net.{UdpAddr}
use network_project.Noisework.Cipher.{Noise}
use network_project.Peer.State.{Handshakes, Peer}
use network_project.Peer.Handshake.Identity.{Authentic}
use network_project.Protocol.{PeerInfo}
use network_project.Agent.{member, prune}
use network_project.Agent.Steps.{Announced, later_Announced}

module _ (noise : Noise) (hs : Handshakes noise) (World : Type 0)
    (sink_send : World → Bytes → Bytes → World × Bool) (resolve : Bytes → Option UdpAddr)
    (addr_string : UdpAddr → Bytes) (hex_decode : Bytes → Option Bytes) where
  -- A tracked peer is another agent's, and its session is held by a key announced for its name.
  pub record Trusted (h : List PeerInfo) (name id : Bytes) (p : Peer noise hs) : Type 0 where
    pub key : Bytes
    pub other : equal id name ≡ false
    pub announced : Announced noise hs World sink_send resolve addr_string hex_decode id key h
    pub held : Authentic noise hs key p

  abbrev pub AllTrusted : List PeerInfo → Bytes → List (Bytes × Peer noise hs) → Type 0
  AllTrusted h name [] = Unit {0}
  AllTrusted h name ((id, p) ∷ m) = Trusted h name id p × AllTrusted h name m

  pub lookup-AllTrusted :
      (h : List PeerInfo) (name id : Bytes) (p : Peer noise hs) (m : List (Bytes × Peer noise hs))
      → lookup id m ≡ some p
      → AllTrusted h name m
      → Trusted h name id p
  unfolding lookup
  lookup-AllTrusted h name id p [] e v = cc e
  lookup-AllTrusted h name id p ((j, q) ∷ m) e v = elim (Bool-cases (equal j id)) [
    | inl here ↦
        let same : q ≡ p = ground (arith, here, e) in
        subst (λ k. Trusted h name k p) ((equal_iff j id).0 here)
          (subst (λ r. Trusted h name j r) same v.0)
    | inr there ↦
        let later : lookup id m ≡ some p = ground (arith, there, e) in
        lookup-AllTrusted h name id p m later v.1
  ]

  pub insert-AllTrusted :
      (h : List PeerInfo) (name id : Bytes) (p : Peer noise hs) (m : List (Bytes × Peer noise hs))
      → Trusted h name id p
      → AllTrusted h name m
      → AllTrusted h name (insert id p m)
  unfolding insert
  insert-AllTrusted h name id p [] t v = (t, tt)
  insert-AllTrusted h name id p ((j, q) ∷ m) t v =
      if-rule (AllTrusted h name) (equal j id) ((id, p) ∷ m) ((j, q) ∷ insert id p m) (t, v.1)
        (v.0, insert-AllTrusted h name id p m t v.1)

  pub prune-AllTrusted :
      (h : List PeerInfo) (name : Bytes) (seen : List Bytes) (m : List (Bytes × Peer noise hs))
      → AllTrusted h name m
      → AllTrusted h name (prune noise hs World sink_send seen m)
  unfolding prune
  prune-AllTrusted h name seen [] v = tt
  prune-AllTrusted h name seen ((id, p) ∷ m) v =
      let u = prune-AllTrusted h name seen m v.1 in
      if-rule (AllTrusted h name) (member id seen) ((id, p) ∷ prune noise hs World sink_send seen m)
        (prune noise hs World sink_send seen m) (v.0, u) u

  pub later-AllTrusted :
      (infos h : List PeerInfo) (name : Bytes) (m : List (Bytes × Peer noise hs))
      → AllTrusted h name m
      → AllTrusted (infos ++ h) name m
  later-AllTrusted infos h name [] v = tt
  later-AllTrusted infos h name ((id, p) ∷ m) v = (
    record {
      key = v.0.key;
      other = v.0.other;
      announced =
          later_Announced noise hs World sink_send resolve addr_string hex_decode infos h id v.0.key
            v.0.announced;
      held = v.0.held;
    },
    later-AllTrusted infos h name m v.1,
  )
