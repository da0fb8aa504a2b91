-- ===== src/Coordinator/Registry/Cleanup.antt =====
-- coordinator.go: what a connection that ends releases.
use network_project.Prelude.{
  ℕ, ◌≡◌, ◌∙◌, ◌≢◌, inl, inr, refl, true, false, ◌==◌, not, ◌&&◌, List, [], none, some, arith,
  Bytes, if◌then◌else◌, Bool-cases, equal, equal_iff, equal_refl, ==_iff,
}
use network_project.Prelude.Assoc.{nat_Eq, bytes_Eq, lookup, delete, lookup-insert, lookup-delete}
use network_project.Protocol.{Message}
use network_project.Coordinator.Registry.{
  Registration, Server, client_id, is_owner, cleanup_conn, enter,
}

-- The registry after `delete`, where the guard of `cleanupConn` lets it.
released :
    (gone : Bytes) (conn : ℕ) (id : Bytes) (rs : List (Bytes × Registration))
    → lookup id
        (if not (equal gone []) && is_owner (lookup gone rs) conn then delete gone rs else rs)
      ≡ (if not (equal id []) && equal gone id && is_owner (lookup id rs) conn
          then none
          else lookup id rs)
released gone conn id rs = elim (Bool-cases (equal gone id)) [
  | inl here ↦
      rw ((equal_iff gone id).0 here) (ground (arith, equal_refl id, lookup-delete id id rs))
  | inr other ↦ ground (arith, other, lookup-delete gone id rs)
]

-- After `cleanupConn`, the connection is in neither map, every other connection is in both as before,
-- the name that it registered last is gone if the connection still owned it, and every other name is
-- as before.
pub cleanup_conn_releases :
    (s : Server) (conn other : ℕ) (id : Bytes)
    → (lookup other (cleanup_conn s conn).clients
        ≡ (if conn == other then none else lookup other s.clients))
      × (lookup other (cleanup_conn s conn).ctrl_conns
          ≡ (if conn == other then none else lookup other s.ctrl_conns))
      × (lookup id (cleanup_conn s conn).registrations ≡ (
          if not (equal id [])
            && equal (client_id s conn) id
            && is_owner (lookup id s.registrations) conn
          then none
          else lookup id s.registrations))
unfolding cleanup_conn
cleanup_conn_releases s conn other id = (
  lookup-delete conn other s.clients,
  lookup-delete conn other s.ctrl_conns,
  released (client_id s conn) conn id s.registrations,
)

abbrev entered : ℕ → Message → Registration
entered conn m = record { id = m.id; pub_key = m.pub_key; endpoints = m.endpoints; owner = conn }

client_id-enter : (s : Server) (conn : ℕ) (m : Message) → client_id (enter s conn m) conn ≡ m.id
unfolding enter
client_id-enter s conn m = ground (arith, lookup-insert conn conn m.id s.clients, ==_iff conn conn)

lookup-enter :
    (s : Server) (conn : ℕ) (m : Message) (id : Bytes)
    → lookup id (enter s conn m).registrations
      ≡ (if equal m.id id then some (entered conn m) else lookup id s.registrations)
unfolding enter
lookup-enter s conn m id = lookup-insert m.id id (entered conn m) s.registrations

-- A connection that registers under two names and ends leaves the first one registered: the registry
-- then holds an owner that is no client any more.
pub cleanup_conn_stale :
    (s : Server) (conn : ℕ) (m n : Message)
    → m.id ≢ n.id
    → (lookup conn (cleanup_conn (enter (enter s conn m) conn n) conn).clients ≡ none)
      × (lookup m.id (cleanup_conn (enter (enter s conn m) conn n) conn).registrations
          ≡ some (record { id = m.id; pub_key = m.pub_key; endpoints = m.endpoints; owner = conn }))
cleanup_conn_stale s conn m n d =
    let s1 = enter s conn m in
    let s2 = enter s1 conn n in
    let (clients, _, registry) = cleanup_conn_releases s2 conn conn m.id in
    let other : equal n.id m.id ≡ false = ground (arith, equal_iff n.id m.id, d) in
    let stays : lookup m.id s2.registrations ≡ some (entered conn m) =
      ground
        (arith, other, lookup-enter s1 conn n m.id, lookup-enter s conn m m.id, equal_refl m.id) in
    let itself : (conn == conn) ≡ true = (==_iff conn conn).1 refl in
    (clients ∙ rw itself refl, registry ∙ ground (arith, client_id-enter s1 conn n, other, stays))
