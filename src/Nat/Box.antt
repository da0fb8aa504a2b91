-- ===== src/Nat/Box.antt =====
-- internal/nat/nat.go: the box, its mappings and its counters. A socket is a number; the text of an IP
-- address, of an endpoint, the port of a socket and the outcome of binding and writing are parameters.
pub mod Traffic
pub mod Contacts
pub mod Admission
pub mod Counting
pub mod Fixed
pub mod Handling
pub mod Kept
pub mod Living
use network_project.Prelude.{
  ℕ, zero, suc, ◌+◌, ◌-◌, ◌*◌, ◌/◌, ◌%◌, ◌^◌, ◌≤◌, ◌<◌, ◌≡◌, refl, sym, ap, ◌∙◌, ◌≢◌, ◌↔◌, ◌⊎◌, inl,
  inr, Bool, true, false, not, ◌&&◌, ◌||◌, List, [], ◌∷◌, ◌++◌, map, Option, none, some, arith,
  Bytes, AllBytes, All, length, get_or, set, take, drop, replicate, ltb, leb, ◌==◌, if◌then◌else◌,
  Bool-cases, Option-cases, Result, ok, err, ◌>>=◌, ◌>>◌, fail_if, wrap, put_u16, u16_at, equal,
  equal_iff, equal_refl, length-append, ltb→lt, ltb→ge, lt→ltb, ge→ltb, ==_iff,
}
use network_project.Net.{UdpAddr, to4, to16}
use network_project.Nat.Envelope.{EnvelopeError, Outbound, wrap_inbound, unwrap_outbound}
use network_project.Prelude.Assoc.{Eq, bytes_Eq, lookup, insert, delete}

pub data Behavior : Type 0 where
  full_cone address_restricted symmetric : Behavior

abbrev pub is_symmetric : Behavior → Bool
is_symmetric symmetric = true
is_symmetric _ = false

abbrev pub is_restricted : Behavior → Bool
is_restricted address_restricted = true
is_restricted _ = false

-- `mapping_ttl` is 0 where mappings never expire, as a negative one is read too.
pub record Config : Type 0 where
  pub behavior : Behavior
  pub public_ip : Bytes
  pub private_host : UdpAddr
  pub mapping_ttl : ℕ

abbrev pub MappingKey : Type 0
MappingKey = Bytes × ℕ

unfoldable pub key_beq : MappingKey → MappingKey → Bool
key_beq (a, i) (b, j) = equal a b && i == j

pub key_beq_iff : (k l : MappingKey) → (key_beq k l ≡ true) ↔ (k ≡ l)
unfolding key_beq
key_beq_iff (a, i) (b, j) = ground (arith, equal_iff a b)

instance abbrev pub key_Eq : Eq MappingKey
key_Eq = record { beq = key_beq; beq_iff = key_beq_iff }

pub record MappingEntry : Type 0 where
  pub pub_conn : Option ℕ
  pub pub_port : ℕ
  pub dst_ip : Bytes
  pub dst_port : ℕ
  pub contact_ip : List (Bytes × Bool)
  pub last_seen : ℕ

pub record Stats : Type 0 where
  pub outbound : ℕ
  pub inbound : ℕ
  pub dropped : ℕ

-- `shut` lists the mapping sockets that have been closed.
pub record Box : Type 0 where
  pub cfg : Config
  pub fixed_conn : Option ℕ
  pub private_host_key : Bytes
  pub mappings : List (MappingKey × MappingEntry)
  pub stats : Stats
  pub closed : Bool
  pub shut : List ℕ

-- `New`, once its sockets are bound; a symmetric box has no fixed one.
unfoldable pub new_box : (UdpAddr → Bytes) → Config → Option ℕ → Box
new_box addr_key cfg fixed = record {
  cfg = cfg;
  fixed_conn = if is_symmetric cfg.behavior then none else fixed;
  private_host_key = addr_key cfg.private_host;
  mappings = [];
  stats = record { outbound = 0; inbound = 0; dropped = 0 };
  closed = false;
  shut = [];
}

abbrev pub same_conn : Option ℕ → Option ℕ → Bool
same_conn none none = true
same_conn (some a) (some b) = a == b
same_conn _ _ = false

unfoldable pub last_seen_expired : MappingEntry → ℕ → ℕ → Bool
last_seen_expired e now ttl = ltb 0 ttl && ltb ttl (now - e.last_seen)

unfoldable pub closed_by : Box → MappingEntry → List ℕ
closed_by b e = elim e.pub_conn [
  | none ↦ []
  | some c ↦ if same_conn (some c) b.fixed_conn then [] else c ∷ []
]

unfoldable pub reclaim : Box → MappingKey → MappingEntry → Box
reclaim b k e = record b { mappings = delete k b.mappings; shut = closed_by b e ++ b.shut }

-- the loop of `cleanup` and of `Stats`
unfoldable pub reclaim_expired : ℕ → List (MappingKey × MappingEntry) → Box → Box
reclaim_expired now [] b = b
reclaim_expired now ((k, e) ∷ rest) b =
    let b' = if last_seen_expired e now b.cfg.mapping_ttl then reclaim b k e else b in
    reclaim_expired now rest b'

unfoldable pub cleanup : Box → ℕ → Box
cleanup b now = if b.cfg.mapping_ttl == 0 then b else reclaim_expired now b.mappings b

unfoldable pub read_stats : Box → ℕ → Box × Stats × ℕ
read_stats b now = let b' = reclaim_expired now b.mappings b in (b', b'.stats, length b'.mappings)

-- uint64
abbrev inc64 : ℕ → ℕ
inc64 n = (n + 1) % 2 ^ 64

abbrev pub inc_outbound : Box → Box
inc_outbound b = record b { stats = record b.stats { outbound = inc64 b.stats.outbound } }

abbrev pub inc_inbound : Box → Box
inc_inbound b = record b { stats = record b.stats { inbound = inc64 b.stats.inbound } }

abbrev pub inc_dropped : Box → Box
inc_dropped b = record b { stats = record b.stats { dropped = inc64 b.stats.dropped } }

-- the sockets that `Close` closes, and the box after it
unfoldable pub close_mappings : Box → List (MappingKey × MappingEntry) → List ℕ
close_mappings b [] = []
close_mappings b ((_, e) ∷ rest) = elim e.pub_conn [
  | none ↦ close_mappings b rest
  | some c ↦ c ∷ close_mappings b rest
]

unfoldable pub close : Box → Box
close b =
    if b.closed
    then b
    else record b { closed = true; mappings = []; shut = close_mappings b b.mappings ++ b.shut }
