-- ===== src/Coordinator/Registry/Pinning.antt =====
-- coordinator.go: whose a name is.
use network_project.Prelude.{
  ℕ, ◌≡◌, refl, sym, ap, ◌∙◌, ◌≢◌, inl, inr, Bool, List, [], ◌∷◌, Option, some, arith, Bytes,
  length, ltb, Bool-cases, Option-cases, ok, equal, equal_iff, Result-cases,
}
use network_project.Prelude.Assoc.{nat_Eq, bytes_Eq, lookup, lookup-insert}
use network_project.Protocol.{MessageType, register, peer_list, Message, blank}
use network_project.Coordinator.Registry.{
  max_control_line_len, Registration, Server, cleanup_conn, connect, accepted, hex_encode, peers_of,
  admit, enter, checked, write_all, broadcast, handle_register, handle_message,
}
use network_project.Coordinator.Registry.Invariant.{checked-Passed, cleanup_conn-subset}
use network_project.Coordinator.Registry.Steps.{
  Reachable, Reachable-Valid, Step, connected, authenticated, received, closed,
}

-- An entry of a later registry has the key of the entry that was there.
abbrev SameKey : Server → Server → Type 0
SameKey s s' =
    (id : Bytes) (r r' : Registration)
    → lookup id s.registrations ≡ some r
    → lookup id s'.registrations ≡ some r'
    → r'.pub_key ≡ r.pub_key

abbrev Fewer : Server → Server → Type 0
Fewer s s' =
    (id : Bytes) (r : Registration)
    → lookup id s'.registrations ≡ some r
    → lookup id s.registrations ≡ some r

Fewer-SameKey : (s s' : Server) → Fewer s s' → SameKey s s'
Fewer-SameKey s s' f id r r' h k =
    let e = f id r' k in let same : r' ≡ r = cc (e, h) in ap (λ (q : Registration). q.pub_key) same

enter-SameKey :
    (s : Server) (conn : ℕ) (m : Message)
    → ((id : Bytes) (r : Registration) → lookup id s.registrations ≡ some r → r.pub_key ≢ [])
    → admit s m ≡ ok tt
    → SameKey s (enter s conn m)
unfolding enter admit
enter-SameKey s conn m n a id r r' h k =
    let new : Registration = record {
      id = m.id;
      pub_key = m.pub_key;
      endpoints = m.endpoints;
      owner = conn;
    } in
    elim (Bool-cases (equal m.id id)) [
      | inl here ↦
          let old : lookup m.id s.registrations ≡ some r = rw ((equal_iff m.id id).0 here) h in
          let e : new ≡ r' = ground (arith, k, here, lookup-insert m.id id new s.registrations) in
          let pinned : m.pub_key ≡ r.pub_key =
            ground
              (arith, a, old, n id r h, equal_iff r.pub_key m.pub_key, equal_iff r.pub_key []) in
          ap (λ (q : Registration). q.pub_key) (sym e) ∙ pinned
      | inr other ↦
          let e : r' ≡ r = ground (arith, h, k, other, lookup-insert m.id id new s.registrations) in
          ap (λ (q : Registration). q.pub_key) e
    ]

module _ (static : ℕ → Bytes) (encode_line : Message → Option Bytes)
    (write_fails : ℕ → Message → Bool) where
  write_all-Fewer :
      (cs : List (ℕ × ℕ)) (m : Message) (s : Server)
      → Fewer s (write_all encode_line write_fails cs m s).0
  unfolding write_all
  write_all-Fewer [] m s id r h = h
  write_all-Fewer ((i, c) ∷ cs) m s id r h = elim (Bool-cases (write_fails c m)) [
    | inl e ↦
        cleanup_conn-subset static s c id r
          (write_all-Fewer cs m (cleanup_conn s c) id r (rw e at h))
    | inr e ↦ write_all-Fewer cs m s id r (rw e at h)
  ]

  broadcast-Fewer : (s : Server) (m : Message) → Fewer s (broadcast encode_line write_fails s m).0
  unfolding broadcast
  broadcast-Fewer s m = elim (Option-cases (encode_line m)) [
    | inl e ↦ rw (e, broadcast) (λ id r h. h)
    | inr (line, e) ↦ elim (Bool-cases (ltb max_control_line_len (length line))) [
      | inl f ↦ rw (e, broadcast) (rw f (λ id r h. h))
      | inr f ↦ rw (e, broadcast) (rw f (write_all-Fewer s.ctrl_conns m s))
    ]
  ]

  handle_register-SameKey :
      (s : Server) (conn : ℕ) (m : Message)
      → ((id : Bytes) (r : Registration) → lookup id s.registrations ≡ some r → r.pub_key ≢ [])
      → SameKey s (handle_register encode_line write_fails s conn (static conn) m).0
  unfolding handle_register
  handle_register-SameKey s conn m n = elim (Result-cases (checked s (static conn) m)) [
    | inr (e, i) ↦ rw (i, handle_register) (Fewer-SameKey s s (λ id r h. h))
    | inl (u, i) ↦
        let s' = enter s conn m in
        let p = checked-Passed static s (static conn) m i in
        rw (i, handle_register)
          (λ id r r' h k. enter-SameKey s conn m n p.admitted id r r' h (
            broadcast-Fewer s' (record (blank peer_list) { peers = peers_of s'.registrations }) id
              r' k))
  ]

hex_encode-nonempty : (b : Bytes) → b ≢ [] → hex_encode b ≢ []
hex_encode-nonempty [] n h = n refl
hex_encode-nonempty (x ∷ b) n h = cc h

module _ (static : ℕ → Bytes) (encode_line : Message → Option Bytes) where
  step-SameKey :
      (s s' : Server)
      → ((id : Bytes) (r : Registration) → lookup id s.registrations ≡ some r → r.pub_key ≢ [])
      → Step static encode_line s s'
      → SameKey s s'
  unfolding connect accepted handle_message
  step-SameKey s _ n (connected conn) = Fewer-SameKey s (connect s conn) (λ id r h. h)
  step-SameKey s _ n (authenticated conn) = Fewer-SameKey s (accepted s conn) (λ id r h. h)
  step-SameKey s _ n (closed conn) =
      Fewer-SameKey s (cleanup_conn s conn) (cleanup_conn-subset static s conn)
  step-SameKey s _ n (received write_fails now conn m) = go m.kind
    where
      go :
          (k : MessageType)
          → SameKey s
              (handle_message encode_line write_fails s now conn
                (static conn)
                (record m { kind = k })).0
      go register =
          unfold handle_message in
          handle_register-SameKey static encode_line write_fails s conn
            (record m { kind = register }) n
      go _ = unfold handle_message in Fewer-SameKey s s (λ id r h. h)

  -- Where no handshake authenticates an empty key: no step of a server that its handlers lead to
  -- changes the key of a name that stays registered. A name cannot be taken over with another key.
  pub step_pins :
      (s s' : Server) (id : Bytes) (r r' : Registration)
      → ((conn : ℕ) → static conn ≢ [])
      → Reachable static encode_line s
      → Step static encode_line s s'
      → lookup id s.registrations ≡ some r
      → lookup id s'.registrations ≡ some r'
      → r'.pub_key ≡ r.pub_key
  step_pins s s' id r r' full v k =
      let valid = Reachable-Valid static encode_line s v in
      step-SameKey s s'
        (λ j q h e.
          hex_encode-nonempty (static q.owner) (full q.owner) (sym (valid.owned j q h).own_key ∙ e))
        k id r r'
