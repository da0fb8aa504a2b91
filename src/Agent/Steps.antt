-- ===== src/Agent/Steps.antt =====
-- agent.go: what happens to an agent.
use network_project.Prelude.{
  ℕ, ◌≡◌, ◌⊎◌, inl, inr, Bool, List, [], ◌∷◌, ◌++◌, Option, none, some, Bytes, Result,
}
use network_project.Prelude.Assoc.{bytes_Eq, lookup, insert}
use network_project.Net.{UdpAddr}
use network_project.Noisework.Cipher.{Noise}
use network_project.Peer.State.{Handshakes, Output, Peer}
use network_project.Peer.Data.{SendError, send_payload}
use network_project.Peer.Run.{start_run, tick}
use network_project.Protocol.{PeerInfo}
use network_project.Agent.{Agent, Bridge, parse_public_key_hex, apply_peers, attach_bridge, receive}

module _ (noise : Noise) (hs : Handshakes noise) (World : Type 0)
    (sink_send : World → Bytes → Bytes → World × Bool) (resolve : Bytes → Option UdpAddr)
    (addr_string : UdpAddr → Bytes) (hex_decode : Bytes → Option Bytes) where
  -- one of the entries gives the peer `id` the key `key`
  abbrev pub Announced : Bytes → Bytes → List PeerInfo → Type 0
  Announced id key [] = ⊥
  Announced id key (info ∷ infos) =
      ((info.id ≡ id) × (parse_public_key_hex hex_decode info.pub_key ≡ some key))
      ⊎ Announced id key infos

  -- The agents that come about, with all the entries of the peer lists that they were given: a list is
  -- applied, a bridge attached, a datagram handed to its peer, or a tracked peer starts, ticks or sends.
  pub data Reach : List PeerInfo → Agent noise hs World sink_send → Type 0 where
    created :
        (name : Bytes) (door relay : Option UdpAddr)
        → Reach [] (record { name = name; door = door; relay = relay; peers = []; bridge = none })
    listed :
        (h : List PeerInfo) (a : Agent noise hs World sink_send) (infos : List PeerInfo)
        → Reach h a
        → Reach (infos ++ h) (apply_peers noise hs World sink_send resolve hex_decode a infos)
    attached :
        (h : List PeerInfo) (a : Agent noise hs World sink_send)
        (b : Bridge noise hs World sink_send)
        → Reach h a
        → Reach h (attach_bridge noise hs World sink_send a b)
    received :
        (h : List PeerInfo) (a a' : Agent noise hs World sink_send) (out : Option Output)
        (now seed : ℕ) (src : UdpAddr) (datagram : Bytes)
        → Reach h a
        → receive noise hs World sink_send resolve addr_string a now seed src datagram
          ≡ some (a', out)
        → Reach h a'
    started :
        (h : List PeerInfo) (a : Agent noise hs World sink_send) (id : Bytes) (p q : Peer noise hs)
        (now : ℕ)
        → Reach h a
        → lookup id a.peers ≡ some p
        → start_run noise hs p now ≡ some q
        → Reach h (record a { peers = insert id q a.peers })
    ticked :
        (h : List PeerInfo) (a : Agent noise hs World sink_send) (id : Bytes) (p q : Peer noise hs)
        (outs : List Output) (accepts : Output → Bool) (now seed : ℕ)
        → Reach h a
        → lookup id a.peers ≡ some p
        → tick noise hs accepts p now seed ≡ some (q, outs)
        → Reach h (record a { peers = insert id q a.peers })
    sent :
        (h : List PeerInfo) (a : Agent noise hs World sink_send) (id : Bytes) (p q : Peer noise hs)
        (r : Result SendError Output) (now : ℕ) (payload : Bytes)
        → Reach h a
        → lookup id a.peers ≡ some p
        → send_payload noise hs p now payload ≡ some (q, r)
        → Reach h (record a { peers = insert id q a.peers })

  -- more has been announced
  pub later_Announced :
      (infos h : List PeerInfo) (id key : Bytes)
      → Announced id key h
      → Announced id key (infos ++ h)
  later_Announced [] h id key v = v
  later_Announced (i ∷ infos) h id key v = inr (later_Announced infos h id key v)

  pub earlier_Announced :
      (infos h : List PeerInfo) (id key : Bytes)
      → Announced id key infos
      → Announced id key (infos ++ h)
  earlier_Announced [] h id key v = absurd v
  earlier_Announced (i ∷ infos) h id key (inl e) = inl e
  earlier_Announced (i ∷ infos) h id key (inr v) = inr (earlier_Announced infos h id key v)
