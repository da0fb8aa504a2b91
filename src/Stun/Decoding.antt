-- ===== src/Stun/Decoding.antt =====
-- stun.go: a response decodes to the address that was put into it.
use network_project.Prelude.{
  ℕ, zero, suc, ◌+◌, ◌*◌, ◌/◌, ◌%◌, ◌^◌, ◌≤◌, ◌<◌, ◌≡◌, refl, sym, ap, ◌∙◌, ◌⊎◌, inl, inr, false,
  [], ◌∷◌, ◌++◌, arith, Bytes, AllBytes, length, take, drop, replicate, ltb, Bool-cases, ok,
  put_u16, u16_at, put_u32, length-append, length-drop, take-length, take-append, drop-append,
  ge→ltb,
}
use Prim.Native.Nat.{bit_xor}
use mathlib.Core.Path.{ap₂, subst}
use network_project.Bits.Xor.{bit_xor-lt, bit_xor-undone}
use network_project.Stun.{
  address_of, attr_step, magic_cookie, stun_header, encode_binding_request, xor_with, response,
  by_family, parse_xor_mapped_address, scan, decode_xor_mapped_address, binding_response,
  header_len, xor_port_mask, attr_xor_mapped_address,
}

length-xor_with : (xs ks : Bytes) → length xs ≤ length ks → length (xor_with xs ks) ≡ length xs
unfolding xor_with
length-xor_with [] ks h = refl
length-xor_with (x ∷ xs) [] h = absurd (omega (arith, h))
length-xor_with (x ∷ xs) (k ∷ ks) h = ap suc (length-xor_with xs ks (omega (arith, h)))

xor_with-undone :
    (xs ks : Bytes)
    → AllBytes xs
    → AllBytes ks
    → length xs ≤ length ks
    → xor_with (xor_with xs ks) ks ≡ xs
unfolding xor_with
xor_with-undone [] ks b c h = refl
xor_with-undone (x ∷ xs) [] b c h = absurd (omega (arith, h))
xor_with-undone (x ∷ xs) (k ∷ ks) b c h =
    ap₂ ◌∷◌ (bit_xor-undone 8 x k b.0 c.0) (xor_with-undone xs ks b.1 c.1 (omega (arith, h)))

-- what a server puts into its response: the family and the bytes of an address
abbrev pub IsSplit : ℕ → Bytes → Type 0
IsSplit family addr = ((family ≡ 1) × (length addr ≡ 4)) ⊎ ((family ≡ 2) × (length addr ≡ 16))

address_of-xor_with :
    (n port : ℕ) (addr key : Bytes)
    → n ≡ length addr
    → n ≤ length key
    → AllBytes addr
    → AllBytes key
    → address_of n port (xor_with addr key) key ≡ ok (record { ip = addr; port = port; zone = [] })
address_of-xor_with n port addr key e h b c =
    let l : length (xor_with addr key) ≡ n =
      length-xor_with addr key (omega (arith, e, h)) ∙ sym e in
    let whole : take n (xor_with addr key) ≡ xor_with addr key =
      subst (λ m. take m (xor_with addr key) ≡ xor_with addr key) l
        (take-length (xor_with addr key)) in
    rw
      (
        ge→ltb (length (xor_with addr key)) n (omega (arith, l)),
        whole,
        xor_with-undone addr key b c (omega (arith, e, h)),
      )
      refl

by_family-xor_with :
    (family port : ℕ) (addr key : Bytes)
    → IsSplit family addr
    → AllBytes addr
    → AllBytes key
    → length key ≡ 16
    → by_family family port (xor_with addr key) key
      ≡ ok (record { ip = addr; port = port; zone = [] })
unfolding by_family
by_family-xor_with family port addr key (inl (f, l)) b c h =
    rw f (address_of-xor_with 4 port addr key (sym l) (omega (arith, h)) b c)
by_family-xor_with family port addr key (inr (f, l)) b c h =
    rw f (address_of-xor_with 16 port addr key (sym l) (omega (arith, h)) b c)

-- the header that carries a key, and what stands in it
parse_mapped :
    (family port : ℕ) (addr key : Bytes)
    → IsSplit family addr
    → AllBytes addr
    → AllBytes key
    → length key ≡ 16
    → port < 2 ^ 16
    → parse_xor_mapped_address
        (0 ∷ family ∷ (put_u16 (bit_xor port xor_port_mask) ++ xor_with addr key))
        key
      ≡ ok (record { ip = addr; port = port; zone = [] })
unfolding parse_xor_mapped_address
parse_mapped family port addr key s b c h q =
    let small = bit_xor-lt 16 port xor_port_mask q (omega arith) in
    let back : bit_xor (bit_xor port xor_port_mask) xor_port_mask ≡ port =
      bit_xor-undone 16 port xor_port_mask q (omega arith) in
    let at : bit_xor port xor_port_mask / 256 % 256 * 256 + bit_xor port xor_port_mask % 256
        ≡ bit_xor port xor_port_mask =
      omega (arith, small) in
    rw (four (length (xor_with addr key)))
      (rw at (rw back (by_family-xor_with family port addr key s b c h)))
  where
    four : (n : ℕ) → ltb (suc (suc (suc (suc n)))) 4 ≡ false
    four n = ground arith

abbrev pub value : ℕ → ℕ → Bytes → Bytes → Bytes
value family port addr key =
    0 ∷ family ∷ (put_u16 (bit_xor port xor_port_mask) ++ xor_with addr key)

scan-first :
    (rounds alen : ℕ) (v key : Bytes)
    → length v ≡ alen
    → alen < 2 ^ 16
    → scan (suc rounds) (put_u16 attr_xor_mapped_address ++ (put_u16 alen ++ v)) key
      ≡ parse_xor_mapped_address v key
unfolding scan
scan-first rounds alen v key e h =
    let at : alen / 256 % 256 * 256 + alen % 256 ≡ alen = omega (arith, h) in
    let whole : take alen v ≡ v = subst (λ m. take m v ≡ v) e (take-length v) in
    rw (at, four (length v), short (length v) alen e, whole) refl
  where
    four : (n : ℕ) → ltb (suc (suc (suc (suc n)))) 4 ≡ false
    four n = ground arith

    short : (n m : ℕ) → n ≡ m → ltb (suc (suc (suc (suc n)))) (4 + m) ≡ false
    short n m k = ground (arith, k)

-- a message, spelled out
abbrev pub message : ℕ → ℕ → Bytes → Bytes → Bytes
message typ len txid body = put_u16 typ ++ (put_u16 len ++ (put_u32 magic_cookie ++ (txid ++ body)))

pub take-twelve : (txid rest : Bytes) → length txid ≡ 12 → take 12 (txid ++ rest) ≡ txid
take-twelve txid rest e = subst (λ n. take n (txid ++ rest) ≡ txid) e (take-append txid rest)

drop-twelve : (txid rest : Bytes) → length txid ≡ 12 → drop 12 (txid ++ rest) ≡ rest
drop-twelve txid rest e = subst (λ n. drop n (txid ++ rest) ≡ rest) e (drop-append txid rest)

stun_header-message :
    (typ len : ℕ) (txid body : Bytes)
    → length txid ≡ 12
    → stun_header typ len txid ++ body ≡ message typ len txid body
unfolding stun_header
stun_header-message typ len txid body e = rw (take-twelve txid (replicate 12 0) e) refl

decode-message :
    (len : ℕ) (txid body : Bytes)
    → length txid ≡ 12
    → length body ≡ len
    → len < 2 ^ 16
    → decode_xor_mapped_address (message binding_response len txid body)
      ≡ scan (suc len) body (put_u32 magic_cookie ++ txid)
unfolding decode_xor_mapped_address
decode-message len txid body e f h =
    let at : len / 256 % 256 * 256 + len % 256 ≡ len = omega (arith, h) in
    let size : length (txid ++ body) ≡ 12 + len = omega (arith, length-append txid body, e, f) in
    let whole : take len body ≡ body = subst (λ m. take m body ≡ body) f (take-length body) in
    let m = message binding_response len txid body in
    let long : header_len + len ≤ length m = omega (arith, size) in
    rw
      (
        at,
        drop-twelve txid body e,
        take-twelve txid body e,
        whole,
        ge→ltb (length m) header_len (omega (arith, long)),
        ge→ltb (length m) (header_len + len) long,
      )
      refl

-- what the server answers, spelled out
pub response-message :
    (txid : Bytes) (port family : ℕ) (addr : Bytes)
    → length txid ≡ 12
    → response (encode_binding_request txid) port (family, addr)
      ≡ message binding_response (4 + (4 + length addr)) txid (
          put_u16 attr_xor_mapped_address
          ++ (put_u16 (4 + length addr)
              ++ value family (port % 2 ^ 16) addr (put_u32 magic_cookie ++ txid)))
unfolding response encode_binding_request stun_header
response-message txid port family addr e =
    rw (take-twelve txid (replicate 12 0) e, all_twelve)
      (rw (take-twelve txid (replicate 12 0) e, all_twelve) refl)
  where
    all_twelve : take 12 txid ≡ txid
    all_twelve = subst (λ n. take n txid ≡ txid) e (take-length txid)

pub decode-response :
    (txid : Bytes) (port family : ℕ) (addr : Bytes)
    → length txid ≡ 12
    → AllBytes txid
    → port < 2 ^ 16
    → IsSplit family addr
    → AllBytes addr
    → decode_xor_mapped_address (response (encode_binding_request txid) port (family, addr))
      ≡ ok (record { ip = addr; port = port; zone = [] })
decode-response txid port family addr e bt q s ba =
    let key = put_u32 magic_cookie ++ txid in
    let v = value family port addr key in
    let alen = 4 + length addr in
    let body = put_u16 attr_xor_mapped_address ++ (put_u16 alen ++ v) in
    let short : length addr ≤ 16 = ground (arith, s) in
    let same : length (xor_with addr key) ≡ length addr =
      length-xor_with addr key (omega (arith, e, short)) in
    let fits : port % 2 ^ 16 ≡ port = omega (arith, q) in
    let bk : AllBytes key = (omega arith, (omega arith, (omega arith, (omega arith, bt)))) in
    rw (response-message txid port family addr e, fits)
      (decode-message (4 + alen) txid body e (omega (arith, same)) (omega (arith, short))
        ∙ scan-first (4 + alen) alen v key (omega (arith, same)) (omega (arith, short))
        ∙ parse_mapped family port addr key s ba bk (omega (arith, e)) q)

-- The rounds are enough: with more of them than bytes, `scan` does not depend on their number.
pub scan_rounds :
    (n m : ℕ) (attrs key : Bytes)
    → length attrs < n
    → length attrs < m
    → scan n attrs key ≡ scan m attrs key
unfolding scan
scan_rounds zero m attrs key h k = absurd (omega (arith, h))
scan_rounds (suc n) zero attrs key h k = absurd (omega (arith, k))
scan_rounds (suc n) (suc m) attrs key h k = elim (Bool-cases (ltb (length attrs) 4)) [
  | inl e ↦ rw e refl
  | inr e ↦
      let tail = drop (attr_step (u16_at (drop 2 attrs))) attrs in
      let shorter : length tail < length attrs =
        ground (arith, e, length-drop (attr_step (u16_at (drop 2 attrs))) attrs) in
      let rest = scan_rounds n m tail key (omega (arith, shorter, h)) (omega (arith, shorter, k)) in
      rw rest refl
]
