-- ===== src/Coordinator/Registry/Steps.antt =====
-- coordinator.go: the handlers as steps of the server, one after another under its lock. `static` is
-- the key that each connection's handshake authenticated; which writes fail may change from step to
-- step.
use network_project.Prelude.{ℕ, Bool, Option, arith, Bytes}
use network_project.Prelude.Assoc.{nat_Eq, bytes_Eq, lookup}
use network_project.Protocol.{MessageType, register, Message}
use network_project.Coordinator.Registry.{
  Server, new_server, cleanup_conn, connect, accepted, handle_message,
}
use network_project.Coordinator.Registry.Invariant.{
  Valid, cleanup_conn-Valid, connect-Valid, accepted-Valid, handle_register-Valid,
}

module _ (static : ℕ → Bytes) (encode_line : Message → Option Bytes) where
  pub data Step (s : Server) : Server → Type 0 where
    connected : (conn : ℕ) → Step s (connect s conn)
    authenticated : (conn : ℕ) → Step s (accepted s conn)
    received :
        (write_fails : ℕ → Message → Bool) (now conn : ℕ) (m : Message)
        → Step s (handle_message encode_line write_fails s now conn (static conn) m).0
    closed : (conn : ℕ) → Step s (cleanup_conn s conn)

  -- the servers that a start at some time and a sequence of steps lead to
  pub data Reachable : Server → Type 0 where
    started : (now : ℕ) → Reachable (new_server now)
    stepped : (s s' : Server) → Reachable s → Step s s' → Reachable s'

  handle_message-Valid :
      (write_fails : ℕ → Message → Bool) (s : Server) (now conn : ℕ) (m : Message)
      → Valid static s
      → Valid static (handle_message encode_line write_fails s now conn (static conn) m).0
  unfolding handle_message
  handle_message-Valid write_fails s now conn m v = go m.kind
    where
      go :
          (k : MessageType)
          → Valid static
              (handle_message encode_line write_fails s now conn
                (static conn)
                (record m { kind = k })).0
      go register =
          unfold handle_message in
          handle_register-Valid static encode_line write_fails s conn (record m { kind = register })
            v
      go _ = unfold handle_message in v

  step-Valid : (s s' : Server) → Valid static s → Step s s' → Valid static s'
  step-Valid s _ v (connected conn) = connect-Valid static s conn v
  step-Valid s _ v (authenticated conn) = accepted-Valid static s conn v
  step-Valid s _ v (received write_fails now conn m) =
      handle_message-Valid write_fails s now conn m v
  step-Valid s _ v (closed conn) = cleanup_conn-Valid static s conn v

  -- In every server that its handlers lead to, the registry holds 512 peers at most, and each is under
  -- its own name, within the bounds of a register, and with the public key that the connection that
  -- owns it authenticated in its handshake.
  pub Reachable-Valid : (s : Server) → Reachable s → Valid static s
  unfolding new_server lookup
  Reachable-Valid _ (started now) = record { owned = λ id r h. cc h; bounded = omega arith }
  Reachable-Valid s' (stepped s _ r k) = step-Valid s s' (Reachable-Valid s r) k
