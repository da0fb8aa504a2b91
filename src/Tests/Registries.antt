-- ===== src/Tests/Registries.antt =====
-- coordinator.go: two connections and one name.
use network_project.Prelude.{
  ℕ, ◌≡◌, refl, ◌≢◌, Bool, false, not, ◌&&◌, [], ◌∷◌, Option, none, some, arith, Bytes,
  if◌then◌else◌, ◌==◌, equal,
}
use network_project.Prelude.Assoc.{nat_Eq, bytes_Eq, lookup, insert}
use network_project.Protocol.{register, Message, blank}
use network_project.Coordinator.Registry.{
  Registration, Server, new_server, client_id, is_owner, cleanup_conn, enter, handle_message,
  handle_register, checked, admit, validate_registration, broadcast,
}
use network_project.Coordinator.Registry.Invariant.{Valid}
use network_project.Coordinator.Registry.Steps.{
  received, Reachable, started, stepped, Reachable-Valid,
}
use network_project.Coordinator.Registry.Pinning.{step_pins}
use network_project.Coordinator.Registry.Cleanup.{cleanup_conn_releases, cleanup_conn_stale}

abbrev static : ℕ → Bytes
static conn = 171 ∷ []

static_full : (conn : ℕ) → static conn ≢ []
static_full conn e = cc e

-- nothing is broadcast, and no write fails
abbrev encode_line : Message → Option Bytes
encode_line m = none

abbrev write_fails : ℕ → Message → Bool
write_fails c m = false

abbrev as_alice : Message
as_alice = record (blank register) { id = 97 ∷ []; pub_key = 97 ∷ 98 ∷ [] }

abbrev as_bob : Message
as_bob = record (blank register) { id = 98 ∷ []; pub_key = 97 ∷ 98 ∷ [] }

abbrev empty : Server
empty = new_server 0

abbrev registered : Server
registered = (handle_message encode_line write_fails empty 1 4 (static 4) as_alice).0

reach : Reachable static encode_line registered
reach = stepped empty registered (started 0) (received write_fails 1 4 as_alice)

Reachable-Valid_example : Valid static registered
Reachable-Valid_example = Reachable-Valid static encode_line registered reach

abbrev alice_at : ℕ → Registration
alice_at conn = record { id = 97 ∷ []; pub_key = 97 ∷ 98 ∷ []; endpoints = []; owner = conn }

-- another connection takes the name over, with the same key
abbrev again : Server
again = (handle_message encode_line write_fails registered 2 5 (static 5) as_alice).0

before : lookup (97 ∷ []) registered.registrations ≡ some (alice_at 4)
unfolding handle_message handle_register checked admit validate_registration enter broadcast lookup
    insert new_server equal
before = refl

after : lookup (97 ∷ []) again.registrations ≡ some (alice_at 5)
unfolding handle_message handle_register checked admit validate_registration enter broadcast lookup
    insert new_server equal
after = refl

step_pins_example : (alice_at 5).pub_key ≡ (alice_at 4).pub_key
step_pins_example =
    step_pins static encode_line registered again (97 ∷ []) (alice_at 4) (alice_at 5) static_full
      reach (received write_fails 2 5 as_alice) before after

cleanup_conn_releases_example :
    (lookup 5 (cleanup_conn registered 4).clients
      ≡ (if 4 == 5 then none else lookup 5 registered.clients))
    × (lookup 5 (cleanup_conn registered 4).ctrl_conns
        ≡ (if 4 == 5 then none else lookup 5 registered.ctrl_conns))
    × (lookup (97 ∷ []) (cleanup_conn registered 4).registrations ≡ (
        if not (equal (97 ∷ []) [])
          && equal (client_id registered 4) (97 ∷ [])
          && is_owner (lookup (97 ∷ []) registered.registrations) 4
        then none
        else lookup (97 ∷ []) registered.registrations))
cleanup_conn_releases_example = cleanup_conn_releases registered 4 5 (97 ∷ [])

cleanup_conn_stale_example :
    (lookup 4 (cleanup_conn (enter (enter empty 4 as_alice) 4 as_bob) 4).clients ≡ none)
    × (lookup (97 ∷ []) (cleanup_conn (enter (enter empty 4 as_alice) 4 as_bob) 4).registrations
        ≡ some (alice_at 4))
cleanup_conn_stale_example = cleanup_conn_stale empty 4 as_alice as_bob (λ e. ground (arith, e))
