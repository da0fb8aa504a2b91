-- ===== src/Agent/Exchange.antt =====
-- agent.go and relay.go: a frame from one agent to another through the relay.
use network_project.Prelude.{
  ℕ, ◌-◌, ◌≤◌, ◌≡◌, refl, ap, ◌∙◌, arith, inl, inr, Bool, true, Option, none, some, Bytes, Result,
  ok, err, equal_refl, Result-cases,
}
use mathlib.Core.Path.{subst}
use network_project.Prelude.Assoc.{bytes_Eq, lookup}
use network_project.Net.{UdpAddr}
use network_project.Noisework.Cipher.{Noise}
use network_project.Peer.State.{Handshakes, Peer}
use network_project.Relay.Packet.{Packet, wrap_packet, parse_packet}
use network_project.Relay.Packet.RoundTrip.{parse_packet-wrap_packet}
use network_project.Relay.Server.{Server, Pin, Datagram, handle_packet}
use network_project.Relay.Server.Pinning.{
  Holds, IsDelivery, handle_packet-Holds, handle_packet-IsDelivery,
}
use network_project.Agent.{
  Agent, SendError, send_relay, send_datagram, receive, through_door, demux, hand_over,
}

module _ (noise : Noise) (hs : Handshakes noise) (World : Type 0)
    (sink_send : World → Bytes → Bytes → World × Bool) (resolve : Bytes → Option UdpAddr)
    (addr_string : UdpAddr → Bytes) where
  -- what an agent that stands behind no box hands to its relay
  abbrev IsWrapped : Bytes → Bytes → Bytes → UdpAddr → Result SendError (UdpAddr × Bytes) → Type 0
  IsWrapped src id frame ra (err e) = Unit {0}
  IsWrapped src id frame ra (ok (dst, pkt)) =
      (dst ≡ ra) × (parse_packet pkt ≡ ok (record { src_id = src; dst_id = id; frame = frame }))

  send_relay-IsWrapped :
      (a : Agent noise hs World sink_send) (id frame : Bytes) (ra : UdpAddr)
      → a.relay ≡ some ra
      → a.door ≡ none
      → IsWrapped a.name id frame ra
          (send_relay noise hs World sink_send resolve addr_string a id frame)
  unfolding send_relay send_datagram
  send_relay-IsWrapped a id frame ra r d = elim (Result-cases (wrap_packet a.name id frame)) [
    | inr (e, h) ↦ simp (r, h, send_relay) tt
    | inl (pkt, h) ↦
        simp (r, h, d, send_relay, send_datagram)
          (refl, parse_packet-wrap_packet a.name id frame pkt h)
  ]

  receive-from_relay :
      (b : Agent noise hs World sink_send) (now seed : ℕ) (ra : UdpAddr) (datagram : Bytes)
      (p : Packet) (q : Peer noise hs)
      → b.relay ≡ some ra
      → b.door ≡ none
      → parse_packet datagram ≡ ok p
      → lookup p.src_id b.peers ≡ some q
      → receive noise hs World sink_send resolve addr_string b now seed ra datagram
        ≡ hand_over noise hs World sink_send resolve addr_string b now seed ra p.src_id p.frame
  unfolding receive through_door demux
  receive-from_relay b now seed ra datagram p q r d h l =
      simp (d, r, equal_refl (addr_string ra), h, l, receive, through_door, demux) refl

  -- A datagram that the relay writes goes to the address that held its destination's name before, if
  -- that pin is fresh.
  written-at :
      (p : Packet) (src : UdpAddr) (s s' : Server) (pkt : Bytes) (d : Datagram) (pin : Pin) (t : ℕ)
      → parse_packet pkt ≡ ok p
      → lookup p.dst_id s.pins ≡ some pin
      → t - pin.last_seen ≤ s.cfg.pin_grace
      → handle_packet addr_string s pkt src t true ≡ (s', some d)
      → (parse_packet d.payload ≡ ok p) × (d.dst ≡ pin.addr)
  written-at p src s s' pkt d pin t h l fresh e =
      let v : IsDelivery p src t (s', some d) =
        subst (IsDelivery p src t) e (handle_packet-IsDelivery addr_string s pkt src t true p h) in
      let (pin', l', same, _) =
        subst (λ (r : Server × Option Datagram). Holds p.dst_id pin t r.0) e
          (handle_packet-Holds addr_string s pkt src t true p.dst_id pin l fresh) in
      let (there, found, goes) = v.1 in
      let here : there ≡ pin' = ground (arith, found, l') in
      (v.0, goes ∙ ap (λ (z : Pin). z.addr) here ∙ same)

  -- A frame that an agent sends through the relay goes to the relay. What the relay writes for it, if it
  -- forwards it, goes to the address that the receiver's name is pinned to, and the agent that listens
  -- there hands the frame, unchanged, to the session that it keeps with the sender: both agents use that
  -- relay and stand behind no box, the receiver tracks the sender by its name, and it was heard from
  -- its address within the grace of a pin.
  pub relayed-received :
      (a b : Agent noise hs World sink_send)
      (listener : UdpAddr → Option (Agent noise hs World sink_send)) (frame pkt : Bytes)
      (ra dst src : UdpAddr) (s s' : Server) (d : Datagram) (pin : Pin) (q : Peer noise hs)
      (t now seed : ℕ)
      → a.relay ≡ some ra
      → a.door ≡ none
      → b.relay ≡ some ra
      → b.door ≡ none
      → lookup a.name b.peers ≡ some q
      → lookup b.name s.pins ≡ some pin
      → t - pin.last_seen ≤ s.cfg.pin_grace
      → listener pin.addr ≡ some b
      → send_relay noise hs World sink_send resolve addr_string a b.name frame ≡ ok (dst, pkt)
      → handle_packet addr_string s pkt src t true ≡ (s', some d)
      → (dst ≡ ra)
        × (listener d.dst ≡ some b)
        × (receive noise hs World sink_send resolve addr_string b now seed ra d.payload
            ≡ hand_over noise hs World sink_send resolve addr_string b now seed ra a.name frame)
  relayed-received a b listener frame pkt ra dst src s s' d pin q t now seed ar ad br bd l pinned
        fresh at_pin sent fwd =
      let w =
        subst (IsWrapped a.name b.name frame ra) sent
          (send_relay-IsWrapped a b.name frame ra ar ad) in
      let p : Packet = record { src_id = a.name; dst_id = b.name; frame = frame } in
      let (h, goes) = written-at p src s s' pkt d pin t w.1 pinned fresh fwd in
      (w.0, ap listener goes ∙ at_pin, receive-from_relay b now seed ra d.payload p q br bd h l)
