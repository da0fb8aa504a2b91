-- ===== src/Stun/RoundTrip.antt =====
-- stun.go: a client reads back the address that the server saw.
use network_project.Prelude.{
  ℕ, ◌+◌, ◌%◌, ◌^◌, ◌≤◌, ◌<◌, ◌≡◌, refl, ◌∙◌, ◌≢◌, ◌⊎◌, inl, inr, true, false, List, [], ◌∷◌, ◌++◌,
  none, some, arith, Bytes, AllBytes, All, length, take, drop, replicate, ltb, ◌==◌, Bool-cases, ok,
  err, put_u16, put_u32, equal, equal_iff, Result-cases, length-append, length-drop, All-drop,
  IsByte, ge→ltb,
}
use network_project.Net.{UdpAddr, to4, to16, v4_in_v6_prefix}
use network_project.Stun.{
  StunError, magic_cookie, stun_header, encode_binding_request, split_address, response,
  handle_binding_request, decode_xor_mapped_address, resolve_public_addr, binding_response,
  header_len, attr_xor_mapped_address,
}
use network_project.Stun.Decoding.{
  IsSplit, message, value, response-message, take-twelve, decode-response,
}

-- an IPv4 address in its short form
unfoldable pub canonical : Bytes → Bytes
canonical ip = elim (to4 ip) [ some v4 ↦ v4 | none ↦ ip ]

split_address-IsSplit :
    (ip : Bytes)
    → AllBytes ip
    → (length ip ≡ 4) ⊎ (length ip ≡ 16)
    → (family : ℕ) × (addr : Bytes) × (split_address ip ≡ ok (family, addr))
      × IsSplit family addr
      × AllBytes addr
      × (addr ≡ canonical ip)
unfolding split_address to4 to16 canonical
split_address-IsSplit ip b (inl e) = (1, ip, ground (arith, e), inl (refl, e), b, ground (arith, e))
split_address-IsSplit ip b (inr e) = elim (Bool-cases (equal (take 12 ip) v4_in_v6_prefix)) [
  | inl v ↦ (
    1,
    drop 12 ip,
    ground (arith, e, v),
    inl (refl, omega (arith, e, length-drop 12 ip)),
    All-drop IsByte 12 ip b,
    ground (arith, e, v),
  )
  | inr v ↦ (2, ip, ground (arith, e, v), inr (refl, e), b, ground (arith, e, v))
]

handle-encode :
    (txid : Bytes) (src : UdpAddr) (split : ℕ × Bytes)
    → length txid ≡ 12
    → 0 < length src.ip
    → split_address src.ip ≡ ok split
    → handle_binding_request (encode_binding_request txid) (some src)
      ≡ ok (response (encode_binding_request txid) src.port split)
unfolding handle_binding_request encode_binding_request stun_header
handle-encode txid src split e h k =
    let m = 0 ∷ 1 ∷ 0 ∷ 0 ∷ 33 ∷ 18 ∷ 164 ∷ 66 ∷ txid in
    let full : ltb (length m) header_len ≡ false =
      ge→ltb (length m) header_len (omega (arith, e)) in
    let named : (length src.ip == 0) ≡ false = ground (arith, h) in
    rw (take-twelve txid (replicate 12 0) e) (rw (full, handle_binding_request, named, k) refl)

-- of another exchange, or no response at all
abbrev pub IsForeign : Bytes → Bytes → Type 0
IsForeign txid pkt =
    (take 12 (drop 8 pkt) ≢ txid) ⊎ ((e : StunError) × (decode_xor_mapped_address pkt ≡ err e))

resolve-foreign :
    (txid pkt : Bytes) (pkts : List Bytes)
    → IsForeign txid pkt
    → resolve_public_addr txid (pkt ∷ pkts) ≡ resolve_public_addr txid pkts
unfolding resolve_public_addr
resolve-foreign txid pkt pkts (inr (e, d)) = rw (d, resolve_public_addr) refl
resolve-foreign txid pkt pkts (inl n) = elim (Result-cases (decode_xor_mapped_address pkt)) [
  | inr (e, d) ↦ rw (d, resolve_public_addr) refl
  | inl (a, d) ↦
      rw (d, resolve_public_addr) (ground (arith, n, equal_iff (take 12 (drop 8 pkt)) txid))
]

resolve-All :
    (txid : Bytes) (front pkts : List Bytes)
    → All (IsForeign txid) front
    → resolve_public_addr txid (front ++ pkts) ≡ resolve_public_addr txid pkts
resolve-All txid [] pkts h = refl
resolve-All txid (d ∷ ds) pkts h =
    resolve-foreign txid d (ds ++ pkts) h.0 ∙ resolve-All txid ds pkts h.1

resolve-response :
    (txid pkt : Bytes) (later : List Bytes) (a : UdpAddr)
    → decode_xor_mapped_address pkt ≡ ok a
    → header_len ≤ length pkt
    → take 12 (drop 8 pkt) ≡ txid
    → resolve_public_addr txid (pkt ∷ later) ≡ some a
unfolding resolve_public_addr
resolve-response txid pkt later a d h t =
    let same : equal (take 12 (drop 8 pkt)) txid ≡ true =
      (equal_iff (take 12 (drop 8 pkt)) txid).1 t in
    rw (d, resolve_public_addr) (ground (arith, h, same))

-- For a transaction id of twelve bytes and a source with an IPv4 or IPv6 address and a port of 16 bits:
-- the server answers the request, and a client that waits for its response gets back that address, an
-- IPv4 one in its short form, and that port, whatever arrives before that is no response to this
-- request, and whatever arrives after it.
pub resolve-handle :
    (txid : Bytes) (src : UdpAddr) (front later : List Bytes)
    → length txid ≡ 12
    → AllBytes txid
    → AllBytes src.ip
    → (length src.ip ≡ 4) ⊎ (length src.ip ≡ 16)
    → src.port < 2 ^ 16
    → All (IsForeign txid) front
    → (resp : Bytes) × (handle_binding_request (encode_binding_request txid) (some src) ≡ ok resp)
      × (resolve_public_addr txid (front ++ (resp ∷ later))
          ≡ some (record { ip = canonical src.ip; port = src.port; zone = [] }))
resolve-handle txid src front later e bt bs l q f =
    let (family, addr, split, is, ba, c) = split_address-IsSplit src.ip bs l in
    let resp = response (encode_binding_request txid) src.port (family, addr) in
    let body =
      put_u16 attr_xor_mapped_address
      ++ (put_u16 (4 + length addr)
          ++ value family (src.port % 2 ^ 16) addr (put_u32 magic_cookie ++ txid)) in
    let shape : resp ≡ message binding_response (4 + (4 + length addr)) txid body =
      response-message txid src.port family addr e in
    let long : header_len ≤ length resp = rw shape (omega (arith, e, length-append txid body)) in
    let mine : take 12 (drop 8 resp) ≡ txid = rw shape (take-twelve txid body e) in
    let decoded = decode-response txid src.port family addr e bt q is ba in
    (
      resp,
      handle-encode txid src (family, addr) e (ground (arith, l)) split,
      resolve-All txid front (resp ∷ later) f
          ∙ rw (← c) (
              resolve-response txid resp later (record { ip = addr; port = src.port; zone = [] })
                decoded long mine),
    )
