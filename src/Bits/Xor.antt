-- ===== src/Bits/Xor.antt =====
-- Bits of machine words: `^`, which undoes itself and stays below a power of two.
use Prim.Native.Nat.{differ, bit_xor, bit_xor-bitwise}
use native.Mathlib.Nat.{pow-suc}
use network_project.Prelude.{ℕ, zero, suc, ◌+◌, ◌*◌, ◌/◌, ◌%◌, ◌^◌, ◌<◌, ◌≡◌, refl, ap, ◌∙◌, arith}
use network_project.Bits.{lowest_digit}

bit_xor_halves : (a b : ℕ) → bit_xor a b ≡ bit_xor (a / 2) (b / 2) * 2 + differ (a % 2) (b % 2)
bit_xor_halves zero b = simp bit_xor-bitwise (omega arith)
bit_xor_halves (suc a) b = simp bit_xor-bitwise (lowest_digit (λ y. y) differ a b)

differ-digits : (x y : ℕ) → x < 2 → y < 2 → differ x y ≡ (x + y) % 2
differ-digits zero zero h k = refl
differ-digits zero (suc zero) h k = refl
differ-digits (suc zero) zero h k = refl
differ-digits (suc zero) (suc zero) h k = refl
differ-digits zero (suc (suc y)) h k = absurd (omega (arith, k))
differ-digits (suc zero) (suc (suc y)) h k = absurd (omega (arith, k))
differ-digits (suc (suc x)) y h k = absurd (omega (arith, h))

-- one binary digit of `^`, and the rest
bit_xor_lowest :
    (a b : ℕ)
    → (bit_xor a b % 2 ≡ (a % 2 + b % 2) % 2) × (bit_xor a b / 2 ≡ bit_xor (a / 2) (b / 2))
bit_xor_lowest a b =
    let d = differ-digits (a % 2) (b % 2) (omega arith) (omega arith) in
    (omega (arith, bit_xor_halves a b, d), omega (arith, bit_xor_halves a b, d))

-- `^` of two numbers of `n` bits has `n` bits.
pub bit_xor-lt : (n a b : ℕ) → a < 2 ^ n → b < 2 ^ n → bit_xor a b < 2 ^ n
bit_xor-lt zero zero zero h k = omega arith
bit_xor-lt zero zero (suc b) h k = absurd (omega (arith, k))
bit_xor-lt zero (suc a) b h k = absurd (omega (arith, h))
bit_xor-lt (suc n) a b h k =
    let rest =
      bit_xor-lt n (a / 2) (b / 2) (omega (arith, h, pow-suc 2 n))
        (omega (arith, k, pow-suc 2 n)) in
    let (lo, hi) = bit_xor_lowest a b in omega (arith, lo, hi, rest, pow-suc 2 n)

-- A second `^` with the same number undoes the first.
pub bit_xor-undone : (n a b : ℕ) → a < 2 ^ n → b < 2 ^ n → bit_xor (bit_xor a b) b ≡ a
bit_xor-undone zero zero zero h k = refl
bit_xor-undone zero zero (suc b) h k = absurd (omega (arith, k))
bit_xor-undone zero (suc a) b h k = absurd (omega (arith, h))
bit_xor-undone (suc n) a b h k =
    let rest =
      bit_xor-undone n (a / 2) (b / 2) (omega (arith, h, pow-suc 2 n))
        (omega (arith, k, pow-suc 2 n)) in
    let (lo, hi) = bit_xor_lowest a b in
    let (lo', hi') = bit_xor_lowest (bit_xor a b) b in
    let up : bit_xor (bit_xor a b / 2) (b / 2) ≡ a / 2 =
      ap (λ (x : ℕ). bit_xor x (b / 2)) hi ∙ rest in
    omega (arith, lo, lo', hi', up)
