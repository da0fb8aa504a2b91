-- ===== src/Nat/Box/Fixed.antt =====
-- nat.go: the one mapping of a box that is not symmetric, over time.
use network_project.Prelude.{
  ℕ, ◌≡◌, refl, ap, ◌∙◌, ◌⊎◌, inl, inr, true, false, [], ◌∷◌, Option, none, some, Bytes,
  if◌then◌else◌, Bool-cases,
}
use network_project.Net.{UdpAddr}
use network_project.Prelude.Assoc.{bytes_Eq, lookup, insert, delete}
use network_project.Nat.Box.{
  Behavior, is_symmetric, MappingKey, key_Eq, MappingEntry, Box, key_beq, key_beq_iff,
  last_seen_expired, reclaim, reclaim_expired,
}
use network_project.Nat.Box.Traffic.{
  flow_key, refreshed, fresh_entry, open_mapping, use_mapping, outbound_socket,
}

abbrev pub fixed_key : MappingKey
fixed_key = ([], 0)

fixed_key_beq : key_beq fixed_key fixed_key ≡ true
fixed_key_beq = (key_beq_iff fixed_key fixed_key).1 refl

-- The box has the one mapping `e`.
abbrev pub Maps : MappingEntry → Box → Type 0
Maps e b = b.mappings ≡ (fixed_key, e) ∷ []

-- The box has no mapping, or one.
abbrev pub Single : Box → Type 0
Single b = (b.mappings ≡ []) ⊎ ((e : MappingEntry) × Maps e b)

pub Maps-lookup : (b : Box) (e : MappingEntry) → Maps e b → lookup fixed_key b.mappings ≡ some e
unfolding lookup
Maps-lookup b e h = ap (lookup fixed_key) h ∙ rw fixed_key_beq refl

pub reclaim-empty : (b : Box) (e : MappingEntry) → Maps e b → (reclaim b fixed_key e).mappings ≡ []
unfolding reclaim delete
reclaim-empty b e h = ap (delete fixed_key) h ∙ rw fixed_key_beq refl

pub reclaim_expired-Maps :
    (b : Box) (e : MappingEntry) (now : ℕ)
    → Maps e b
    → reclaim_expired now b.mappings b
      ≡ (if last_seen_expired e now b.cfg.mapping_ttl then reclaim b fixed_key e else b)
unfolding reclaim_expired
reclaim_expired-Maps b e now h = ap (λ m. reclaim_expired now m b) h

module _ (ip_string : Bytes → Bytes) (port_of : Option ℕ → ℕ) where
  flow_key_fixed :
      (behavior : Behavior) (dst : UdpAddr)
      → is_symmetric behavior ≡ false
      → flow_key ip_string behavior dst ≡ fixed_key
  unfolding flow_key
  flow_key_fixed behavior dst k = rw k refl

  -- the entry that a new mapping has
  abbrev pub new_entry : Box → UdpAddr → ℕ → MappingEntry
  new_entry b dst now = fresh_entry ip_string port_of b.cfg.behavior b.fixed_conn dst now

  open_mapping-Maps :
      (b : Box) (now : ℕ) (bound : Option ℕ) (dst : UdpAddr)
      → is_symmetric b.cfg.behavior ≡ false
      → b.mappings ≡ []
      → Maps (new_entry b dst now) (open_mapping ip_string port_of b now bound dst).0
        × ((open_mapping ip_string port_of b now bound dst).0.cfg ≡ b.cfg)
  unfolding open_mapping insert
  open_mapping-Maps b now bound dst k e =
      rw (k, open_mapping)
        (rw (flow_key_fixed b.cfg.behavior dst k)
          (ap (insert fixed_key (new_entry b dst now)) e, refl))

  use_mapping-Maps :
      (b : Box) (now : ℕ) (e : MappingEntry) (dst : UdpAddr)
      → is_symmetric b.cfg.behavior ≡ false
      → Maps e b
      → Maps
          (refreshed ip_string port_of b.cfg.behavior e dst now)
          (use_mapping ip_string port_of b now e dst).0
  unfolding use_mapping insert
  use_mapping-Maps b now e dst k h = rw (flow_key_fixed b.cfg.behavior dst k) (
      ap (insert fixed_key (refreshed ip_string port_of b.cfg.behavior e dst now)) h
      ∙ rw fixed_key_beq refl)

  -- What an outbound datagram makes of the box: a new mapping, or the old one used again.
  pub data Socketed (b : Box) (dst : UdpAddr) (now : ℕ) (b' : Box) : Type 0 where
    anew : Maps (new_entry b dst now) b' → b'.cfg ≡ b.cfg → Socketed b dst now b'
    again :
        (e : MappingEntry)
        → Maps (refreshed ip_string port_of b.cfg.behavior e dst now) b'
        → b'.cfg ≡ b.cfg
        → Socketed b dst now b'

  pub outbound_socket-again :
      (b : Box) (now : ℕ) (bound : Option ℕ) (dst : UdpAddr) (e : MappingEntry)
      → is_symmetric b.cfg.behavior ≡ false
      → Maps e b
      → last_seen_expired e now b.cfg.mapping_ttl ≡ false
      → Maps
          (refreshed ip_string port_of b.cfg.behavior e dst now)
          (outbound_socket ip_string port_of b now bound dst).0
        × ((outbound_socket ip_string port_of b now bound dst).0.cfg ≡ b.cfg)
  unfolding outbound_socket lookup use_mapping
  outbound_socket-again b now bound dst e k h live =
      let l : lookup (flow_key ip_string b.cfg.behavior dst) b.mappings ≡ some e =
        ap (λ j. lookup j b.mappings) (flow_key_fixed b.cfg.behavior dst k) ∙ Maps-lookup b e h in
      rw (l, live, outbound_socket) (use_mapping-Maps b now e dst k h, refl)

  pub outbound_socket-Socketed :
      (b : Box) (now : ℕ) (bound : Option ℕ) (dst : UdpAddr)
      → is_symmetric b.cfg.behavior ≡ false
      → Single b
      → Socketed b dst now (outbound_socket ip_string port_of b now bound dst).0
  unfolding outbound_socket lookup reclaim
  outbound_socket-Socketed b now bound dst k (inl none_is) =
      let (m, c) = open_mapping-Maps b now bound dst k none_is in
      let e : lookup (flow_key ip_string b.cfg.behavior dst) b.mappings ≡ none =
        ap (lookup (flow_key ip_string b.cfg.behavior dst)) none_is in
      rw (e, outbound_socket) (anew m c)
  outbound_socket-Socketed b now bound dst k (inr (e, h)) =
      let key = flow_key_fixed b.cfg.behavior dst k in
      let l : lookup (flow_key ip_string b.cfg.behavior dst) b.mappings ≡ some e =
        ap (λ j. lookup j b.mappings) key ∙ Maps-lookup b e h in
      let gone = reclaim b (flow_key ip_string b.cfg.behavior dst) e in
      let empty : gone.mappings ≡ [] =
        ap (λ j. (reclaim b j e).mappings) key ∙ reclaim-empty b e h in
      elim (Bool-cases (last_seen_expired e now b.cfg.mapping_ttl)) [
        | inl over ↦
            let (m, c) = open_mapping-Maps gone now bound dst k empty in
            rw (l, over, outbound_socket) (anew m c)
        | inr live ↦ let (m, c) = outbound_socket-again b now bound dst e k h live in again e m c
      ]
