-- ===== src/Coordinator/Registry/Invariant.antt =====
-- coordinator.go: what every registration satisfies, over every sequence of handlers.
use mathlib.Core.Path.{subst}
use network_project.Prelude.{
  ℕ, ◌≤◌, ◌≡◌, refl, ◌≢◌, inl, inr, Bool, true, List, [], ◌∷◌, Option, some, arith, Bytes, length,
  ltb, Bool-cases, Option-cases, ok, err, equal, equal_iff, Result-cases,
}
use network_project.Prelude.Assoc.{
  nat_Eq, bytes_Eq, lookup, lookup-insert, lookup-delete, length-insert, length-insert_old,
  length-delete,
}
use network_project.Protocol.{Message}
use network_project.Coordinator.Registry.{
  max_id_len, max_endpoints_per_peer, max_registrations, max_control_line_len, Registration, Server,
  client_id, cleanup_conn, connect, accepted, endpoints_fit, validate_registration, hex_encode,
  admit, enter, checked, write_all, broadcast, handle_register,
}

-- The bounds that a register is held to.
pub record Fits (id : Bytes) (endpoints : List Bytes) : Type 0 where
  pub named : id ≢ []
  pub id_fits : length id ≤ max_id_len
  pub few : length endpoints ≤ max_endpoints_per_peer
  pub short : endpoints_fit endpoints ≡ true

validate_registration-Fits : (m : Message) → validate_registration m ≡ ok tt → Fits m.id m.endpoints
unfolding validate_registration
validate_registration-Fits m h = record {
  named = λ e. ground (arith, equal_iff m.id [], e);
  id_fits = ground arith;
  few = ground arith;
  short = ground arith;
}

-- `static` is the key that each connection's handshake authenticated.
module _ (static : ℕ → Bytes) where
  pub record Owned (id : Bytes) (r : Registration) : Type 0 where
    pub own_name : r.id ≡ id
    pub own_key : r.pub_key ≡ hex_encode (static r.owner)
    pub fits : Fits r.id r.endpoints

  pub record Valid (s : Server) : Type 0 where
    pub owned : (id : Bytes) (r : Registration) → lookup id s.registrations ≡ some r → Owned id r
    pub bounded : length s.registrations ≤ max_registrations

  pub cleanup_conn-Valid : (s : Server) (conn : ℕ) → Valid s → Valid (cleanup_conn s conn)
  unfolding cleanup_conn
  cleanup_conn-Valid s conn v =
      let gone = client_id s conn in
      record {
        owned = λ id r h. v.owned id r (ground (arith, lookup-delete gone id s.registrations));
        bounded = ground (arith, length-delete gone s.registrations, v.bounded);
      }

  pub cleanup_conn-subset :
      (s : Server) (conn : ℕ) (id : Bytes) (r : Registration)
      → lookup id (cleanup_conn s conn).registrations ≡ some r
      → lookup id s.registrations ≡ some r
  unfolding cleanup_conn
  cleanup_conn-subset s conn id r h =
      ground (arith, lookup-delete (client_id s conn) id s.registrations)

  pub connect-Valid : (s : Server) (conn : ℕ) → Valid s → Valid (connect s conn)
  unfolding connect
  connect-Valid s conn v = record { owned = v.owned; bounded = v.bounded }

  pub accepted-Valid : (s : Server) (conn : ℕ) → Valid s → Valid (accepted s conn)
  unfolding accepted
  accepted-Valid s conn v = record { owned = v.owned; bounded = v.bounded }

  -- What a register that passes the checks shows.
  pub record Passed (s : Server) (peer_static : Bytes) (m : Message) : Type 0 where
    pub fits : Fits m.id m.endpoints
    pub authentic : m.pub_key ≡ hex_encode peer_static
    pub admitted : admit s m ≡ ok tt

  pub checked-Passed :
      (s : Server) (peer_static : Bytes) (m : Message)
      → checked s peer_static m ≡ ok tt
      → Passed s peer_static m
  unfolding checked
  checked-Passed s peer_static m h = elim (Result-cases (validate_registration m)) [
    | inr (e, i) ↦ let bad : checked s peer_static m ≡ err e = rw (i, checked) refl in cc (h, bad)
    | inl (u, i) ↦ record {
      fits = validate_registration-Fits m i;
      authentic = ground (arith, i, h, equal_iff (hex_encode peer_static) m.pub_key);
      admitted = ground (arith, i, h);
    }
  ]

  enter-Valid :
      (s : Server) (conn : ℕ) (m : Message)
      → Valid s
      → Passed s (static conn) m
      → Valid (enter s conn m)
  unfolding enter admit
  enter-Valid s conn m v p =
      let new : Registration = record {
        id = m.id;
        pub_key = m.pub_key;
        endpoints = m.endpoints;
        owner = conn;
      } in
      record {
        owned = λ id r h. elim (Bool-cases (equal m.id id)) [
          | inl here ↦
              let e : new ≡ r =
                ground (arith, h, here, lookup-insert m.id id new s.registrations) in
              let n : m.id ≡ id = (equal_iff m.id id).0 here in
              subst (Owned id) e (record { own_name = n; own_key = p.authentic; fits = p.fits })
          | inr other ↦
              v.owned id r (ground (arith, h, other, lookup-insert m.id id new s.registrations))
        ];
        bounded = elim (Option-cases (lookup m.id s.registrations)) [
          | inl e ↦ ground (arith, e, p.admitted, length-insert m.id new s.registrations)
          | inr (cur, e) ↦
              omega (arith, length-insert_old m.id new cur s.registrations e, v.bounded)
        ];
      }

module _ (static : ℕ → Bytes) (encode_line : Message → Option Bytes)
    (write_fails : ℕ → Message → Bool) where
  write_all-Valid :
      (cs : List (ℕ × ℕ)) (m : Message) (s : Server)
      → Valid static s
      → Valid static (write_all encode_line write_fails cs m s).0
  unfolding write_all
  write_all-Valid [] m s v = v
  write_all-Valid ((i, c) ∷ cs) m s v = elim (Bool-cases (write_fails c m)) [
    | inl e ↦ rw e (write_all-Valid cs m (cleanup_conn s c) (cleanup_conn-Valid static s c v))
    | inr e ↦ rw e (write_all-Valid cs m s v)
  ]

  broadcast-Valid :
      (s : Server) (m : Message)
      → Valid static s
      → Valid static (broadcast encode_line write_fails s m).0
  unfolding broadcast
  broadcast-Valid s m v = elim (Option-cases (encode_line m)) [
    | inl e ↦ rw (e, broadcast) v
    | inr (line, e) ↦ elim (Bool-cases (ltb max_control_line_len (length line))) [
      | inl f ↦ rw (e, broadcast) (rw f v)
      | inr f ↦ rw (e, broadcast) (rw f (write_all-Valid s.ctrl_conns m s v))
    ]
  ]

  pub handle_register-Valid :
      (s : Server) (conn : ℕ) (m : Message)
      → Valid static s
      → Valid static (handle_register encode_line write_fails s conn (static conn) m).0
  unfolding handle_register
  handle_register-Valid s conn m v = elim (Result-cases (checked s (static conn) m)) [
    | inr (e, i) ↦ rw (i, handle_register) v
    | inl (u, i) ↦
        rw (i, handle_register)
          (broadcast-Valid _ _
            (enter-Valid static s conn m v (checked-Passed static s (static conn) m i)))
  ]
