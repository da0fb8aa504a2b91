-- ===== src/Tests/Tunnels.antt =====
-- stun.go and router.go: a client that sees an echo of its request first, and a router of one route.
use network_project.Prelude.{
  ℕ, zero, suc, ◌+◌, ◌%◌, ◌<◌, ◌≡◌, refl, inl, inr, Bool, List, [], ◌∷◌, ◌++◌, some, arith, Bytes,
  AllBytes, replicate, ◌==◌, ok, equal,
}
use network_project.Prelude.Assoc.{bytes_Eq, lookup}
use network_project.Net.{UdpAddr}
use network_project.Stun.{
  wrong_type, encode_binding_request, handle_binding_request, decode_xor_mapped_address,
  resolve_public_addr, stun_header,
}
use network_project.Stun.RoundTrip.{canonical, IsForeign, resolve-handle}
use network_project.Tun.Router.{ip4, new_router, parse_ipv4}
use network_project.Tun.Router.Accounts.{
  Op, routes_to, packet, run, Counts, one_malformed, run-Accounts,
}

abbrev txid : Bytes
txid = replicate 12 5

abbrev source : UdpAddr
source = record { ip = 203 ∷ 0 ∷ 113 ∷ 9 ∷ []; port = 40000; zone = [] }

echo_is_no_response : IsForeign txid (encode_binding_request txid)
unfolding encode_binding_request stun_header decode_xor_mapped_address
echo_is_no_response = inr (wrong_type, refl)

bytes_of : (n b : ℕ) → b < 256 → AllBytes (replicate n b)
bytes_of zero b h = tt
bytes_of (suc n) b h = (h, bytes_of n b h)

resolve-handle_example :
    (resp : Bytes) × (handle_binding_request (encode_binding_request txid) (some source) ≡ ok resp)
    × (resolve_public_addr txid ((encode_binding_request txid ∷ []) ++ (resp ∷ []))
        ≡ some (record { ip = canonical source.ip; port = 40000; zone = [] }))
resolve-handle_example =
    resolve-handle txid source (encode_binding_request txid ∷ []) [] refl
      (bytes_of 12 5 (omega arith)) (omega arith, (omega arith, (omega arith, (omega arith, tt))))
      (inl refl) (omega arith) (echo_is_no_response, tt)

-- a sink that counts, and refuses every second packet
abbrev counting : ℕ → ℕ → Bytes → ℕ × Bool
counting w sink pkt = (w + 1, w % 2 == 0)

-- an IPv4 header without a payload, for 10.0.0.7
abbrev datagram : Bytes
datagram = 69 ∷ 0 ∷ 0 ∷ 20 ∷ 0 ∷ 0 ∷ 0 ∷ 0 ∷ 64 ∷ 17 ∷ 0 ∷ 0 ∷ 10 ∷ 0 ∷ 0 ∷ 1 ∷ 10 ∷ 0 ∷ 0 ∷ 7 ∷ []

abbrev overlay : Bytes
overlay = 10 ∷ 0 ∷ 0 ∷ 7 ∷ []

abbrev history : List (Op ℕ ℕ counting)
history =
    packet datagram
    ∷ routes_to (ip4 overlay) (some 3)
    ∷ packet datagram
    ∷ packet (1 ∷ [])
    ∷ packet datagram
    ∷ []

run-Accounts_example :
    Counts ℕ ℕ counting (run ℕ ℕ counting (new_router ℕ ℕ counting, 0) history).0 4 1
    × (lookup overlay (run ℕ ℕ counting (new_router ℕ ℕ counting, 0) history).0.routes ≡ some 3)
unfolding one_malformed parse_ipv4 equal
run-Accounts_example = run-Accounts ℕ ℕ counting history 0 overlay (omega arith)
