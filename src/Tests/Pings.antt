-- ===== src/Tests/Pings.antt =====
-- agent.go and status.go: a ping that is answered, over a toy encoding, and three measurements.
use network_project.Prelude.{
  ℕ, ◌≡◌, refl, List, [], ◌∷◌, Option, none, some, Bytes, take, if◌then◌else◌, ◌==◌,
}
use network_project.Prelude.Assoc.{nat_Eq, bytes_Eq, lookup, delete}
use network_project.Agent.Pings.{
  PingMsg, ping_cmd, pong_cmd, answers, wakes, handle_peer_payload, register_ping,
  rtt_history_depth, hist_of,
}
use network_project.Agent.Pings.Rounds.{ping-pong}
use network_project.Agent.Pings.History.{record_all, measured, newest, record_all-measured}

abbrev write : PingMsg → Bytes
write m = 123 ∷ m.s ∷ m.ts ∷ m.cmd

abbrev read : Bytes → Option PingMsg
read (_ ∷ s ∷ ts ∷ cmd) = some (record { cmd = cmd; s = s; ts = ts })
read _ = none

-- another ping waits, under the number 7
abbrev others : List (ℕ × ℕ)
others = (7, 70) ∷ []

ping-pong_example :
    let waiting = register_ping ℕ read others 8 80 in
    (handle_peer_payload ℕ read none [] 2 (write (record { cmd = ping_cmd; s = 8; ts = 1 }))
      ≡ ([], answers (record { cmd = pong_cmd; s = 8; ts = 1 })))
    × (handle_peer_payload ℕ read
          (some 1400)
          waiting
          3
          (write (record { cmd = pong_cmd; s = 8; ts = 1 }))
        ≡ (delete 8 waiting, wakes 80 3))
    × (lookup 7 (delete 8 waiting) ≡ (if 8 == 7 then none else lookup 7 others))
ping-pong_example =
    ping-pong ℕ write read (some 1400) none others [] 3 2 8 1 7 80 (λ m. (m.s ∷ m.ts ∷ m.cmd, refl))
      (λ m. refl)

abbrev measurements : List (Bytes × ℕ)
measurements =
    (97 ∷ [], 6)
    ∷ (98 ∷ [], 5)
    ∷ (97 ∷ [], 4)
    ∷ (97 ∷ [], 3)
    ∷ (97 ∷ [], 2)
    ∷ (97 ∷ [], 1)
    ∷ (97 ∷ [], 9)
    ∷ []

record_all-measured_example :
    (hist_of (lookup (97 ∷ []) (record_all measurements).rtt_hist)
      ≡ take rtt_history_depth (measured (97 ∷ []) measurements))
    × (lookup (97 ∷ []) (record_all measurements).last_rtt
        ≡ newest (measured (97 ∷ []) measurements))
record_all-measured_example = record_all-measured measurements (97 ∷ [])
