-- ===== src/Agent/Pings/Rounds.antt =====
-- agent.go: a ping, its answer, and the waiter that it wakes.
use network_project.Prelude.{
  ℕ, ◌≡◌, refl, sym, ap, ◌∙◌, false, not, ◌&&◌, List, ◌∷◌, Option, none, some, arith, Bytes, length,
  ◌==◌, if◌then◌else◌, equal,
}
use network_project.Prelude.Assoc.{nat_Eq, lookup, insert, delete, lookup-insert, lookup-delete}
use network_project.Agent.Pings.{
  PingMsg, ping_cmd, pong_cmd, brace, answers, wakes, decode_ping_msg, dispatch_ping,
  handle_peer_payload, register_ping,
}

module _ (Waiter : Type 0) (marshal : PingMsg → Bytes) (unmarshal : Bytes → Option PingMsg) where
  -- a message that reaches the agent as it was marshalled, with a bridge or without
  handle_peer_payload_lem :
      (bridge : Option ℕ) (ping_out : List (ℕ × Waiter)) (now : ℕ) (m : PingMsg) (rest : Bytes)
      → marshal m ≡ brace ∷ rest
      → unmarshal (marshal m) ≡ some m
      → not (equal m.cmd ping_cmd) && not (equal m.cmd pong_cmd) ≡ false
      → handle_peer_payload Waiter unmarshal bridge ping_out now (marshal m)
        ≡ dispatch_ping Waiter unmarshal ping_out now m
  unfolding handle_peer_payload decode_ping_msg
  handle_peer_payload_lem none ping_out now m rest b u known =
      let v : unmarshal (brace ∷ rest) ≡ some m = sym (ap unmarshal b) ∙ u in
      let long : (length (brace ∷ rest) == 0) ≡ false = ground arith in
      rw b (simp (v, known, long) refl)
  handle_peer_payload_lem (some mtu) ping_out now m rest b u known =
      let v : unmarshal (brace ∷ rest) ≡ some m = sym (ap unmarshal b) ∙ u in
      let long : (length (brace ∷ rest) == 0) ≡ false = ground arith in
      rw b (simp (long, decode_ping_msg, v, known) refl)

  -- A ping that an agent is given is answered with its number and its time. The answer, given to an
  -- agent whose ping of that number waits, wakes its waiter, which is then forgotten, and no other
  -- waiter is. A bridge changes none of this, if what is marshalled begins with a brace and is read back.
  pub ping-pong :
      (bridge bridge' : Option ℕ) (out out' : List (ℕ × Waiter)) (now now' seq ts j : ℕ)
      (w : Waiter)
      → ((m : PingMsg) → (rest : Bytes) × (marshal m ≡ brace ∷ rest))
      → ((m : PingMsg) → unmarshal (marshal m) ≡ some m)
      → let ping : PingMsg = record { cmd = ping_cmd; s = seq; ts = ts } in
        let pong : PingMsg = record { cmd = pong_cmd; s = seq; ts = ts } in
        let waiting = register_ping Waiter unmarshal out seq w in
        (handle_peer_payload Waiter unmarshal bridge' out' now' (marshal ping)
          ≡ (out', answers pong))
        × (handle_peer_payload Waiter unmarshal bridge waiting now (marshal pong)
            ≡ (delete seq waiting, wakes w now))
        × (lookup j (delete seq waiting) ≡ (if seq == j then none else lookup j out))
  unfolding dispatch_ping register_ping equal
  ping-pong bridge bridge' out out' now now' seq ts j w braced law =
      let ping : PingMsg = record { cmd = ping_cmd; s = seq; ts = ts } in
      let pong : PingMsg = record { cmd = pong_cmd; s = seq; ts = ts } in
      let (r, e) = braced ping in
      let (r', e') = braced pong in
      let here : lookup seq (insert seq w out) ≡ some w =
        lookup-insert seq seq w out ∙ ground arith in
      (
        handle_peer_payload_lem bridge' out' now' ping r e (law ping) refl,
        handle_peer_payload_lem bridge (insert seq w out) now pong r' e' (law pong) refl
            ∙ simp here refl,
        lookup-delete seq j (insert seq w out) ∙ ground (arith, lookup-insert seq j w out),
      )
