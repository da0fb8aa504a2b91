-- ===== src/Agent/Pings.antt =====
-- internal/agent/agent.go and status.go: the diagnostic pings over a session, and the round-trip times
-- that they measure. `json.Marshal` and `json.Unmarshal` are parameters. A waiter stands for the channel
-- that its ping blocks on, and a bridge for the MTU of its device. Times are not negative.
pub mod Rounds
pub mod History
use network_project.Prelude.{
  ℕ, zero, suc, ◌+◌, ◌-◌, ◌*◌, ◌/◌, ◌%◌, ◌^◌, ◌≤◌, ◌<◌, ◌≡◌, refl, sym, ap, ◌∙◌, ◌≢◌, ◌↔◌, ◌⊎◌, inl,
  inr, Bool, true, false, not, ◌&&◌, ◌||◌, List, [], ◌∷◌, ◌++◌, map, Option, none, some, arith,
  Bytes, AllBytes, All, length, get_or, set, take, drop, replicate, ltb, leb, ◌==◌, if◌then◌else◌,
  Bool-cases, if-rule, Option-cases, Result, ok, err, ◌>>=◌, ◌>>◌, fail_if, wrap, put_u16, u16_at,
  put_u32, u32_at, equal, equal_iff, equal_refl, Result-cases, length-append, take-append,
  drop-append, ltb→lt, ltb→ge, lt→ltb, ge→ltb, ==_iff,
}
use network_project.Prelude.Assoc.{nat_Eq, bytes_Eq, lookup, insert, delete}

pub record PingMsg : Type 0 where
  pub cmd : Bytes
  pub s : ℕ
  pub ts : ℕ

-- "ping" and "pong"
abbrev pub ping_cmd : Bytes
ping_cmd = 112 ∷ 105 ∷ 110 ∷ 103 ∷ []

abbrev pub pong_cmd : Bytes
pong_cmd = 112 ∷ 111 ∷ 110 ∷ 103 ∷ []

-- '{'
abbrev pub brace : ℕ
brace = 123

module _ (Waiter : Type 0) (unmarshal : Bytes → Option PingMsg) where
  -- What the agent does with a payload: a message to the same peer, a time to a waiter, or a packet to
  -- the device.
  pub data Effect : Type 0 where
    answers : PingMsg → Effect
    wakes : Waiter → ℕ → Effect
    writes : Bytes → Effect
    drops : Effect

  unfoldable pub decode_ping_msg : Bytes → Option PingMsg
  decode_ping_msg payload = elim (unmarshal payload) [
    | none ↦ none
    | some m ↦ if not (equal m.cmd ping_cmd) && not (equal m.cmd pong_cmd) then none else some m
  ]

  -- the map `pingOut` and what follows
  unfoldable pub dispatch_ping : List (ℕ × Waiter) → ℕ → PingMsg → List (ℕ × Waiter) × Effect
  dispatch_ping ping_out now m =
      if equal m.cmd ping_cmd
      then (ping_out, answers (record { cmd = pong_cmd; s = m.s; ts = m.ts }))
      else if equal m.cmd pong_cmd
      then (delete m.s ping_out, elim (lookup m.s ping_out) [ none ↦ drops | some w ↦ wakes w now ])
      else (ping_out, drops)

  -- `inbound` of the bridge
  unfoldable pub inbound : ℕ → Bytes → Effect
  inbound mtu payload = if ltb mtu (length payload) then drops else writes payload

  abbrev starts_brace : Bytes → Bool
  starts_brace [] = false
  starts_brace (c ∷ _) = c == brace

  abbrev decoded : Bytes → Option PingMsg
  decoded payload = if starts_brace payload then decode_ping_msg payload else none

  unfoldable pub handle_peer_payload :
      Option ℕ → List (ℕ × Waiter) → ℕ → Bytes → List (ℕ × Waiter) × Effect
  handle_peer_payload bridge ping_out now payload =
      if length payload == 0 then (ping_out, drops) else elim bridge [
        | some mtu ↦ elim (decoded payload) [
          | some m ↦ dispatch_ping ping_out now m
          | none ↦ (ping_out, inbound mtu payload)
        ]
        | none ↦ elim (decode_ping_msg payload) [
          | some m ↦ dispatch_ping ping_out now m
          | none ↦ (ping_out, drops)
        ]
      ]

  -- `a.pingOut[seq] = done`, and `dropPing`
  unfoldable pub register_ping : List (ℕ × Waiter) → ℕ → Waiter → List (ℕ × Waiter)
  register_ping ping_out seq w = insert seq w ping_out

  unfoldable pub drop_ping : List (ℕ × Waiter) → ℕ → List (ℕ × Waiter)
  drop_ping ping_out seq = delete seq ping_out

abbrev pub rtt_history_depth : ℕ
rtt_history_depth = 5

pub record Rtts : Type 0 where
  pub last_rtt : List (Bytes × ℕ)
  pub rtt_hist : List (Bytes × List ℕ)

-- what a missing key reads as
abbrev pub hist_of : Option (List ℕ) → List ℕ
hist_of none = []
hist_of (some h) = h

unfoldable pub record_rtt : Rtts → Bytes → ℕ → Rtts
record_rtt r id rtt =
    let hist = rtt ∷ hist_of (lookup id r.rtt_hist) in
    let kept = if ltb rtt_history_depth (length hist) then take rtt_history_depth hist else hist in
    record { last_rtt = insert id rtt r.last_rtt; rtt_hist = insert id kept r.rtt_hist }
