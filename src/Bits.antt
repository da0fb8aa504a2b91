-- ===== src/Bits.antt =====
-- Bits of machine words: `|`, `&`, `<<` and `>>` read bit by bit.
pub mod Xor
use Prim.Native.Nat.{min, max, digits, bitwise, bit_and, bit_or, bit_and-bitwise, bit_or-bitwise}
use native.Mathlib.Nat.{
  le_refl, pow-suc, div-div-eq-div-mul, pow-succ', div-add-mod, mod-lt, one-le-pow,
  add-mul-mod_self_right, mod-eq_of_lt,
}
use network_project.Prelude.{
  ℕ, zero, suc, ◌+◌, ◌*◌, ◌/◌, ◌%◌, ◌^◌, ◌≤◌, ◌<◌, ◌≡◌, refl, ap, ◌∙◌, arith, ◌==◌, if◌then◌else◌,
}

-- bit `i` of `x`
abbrev pub bit : ℕ → ℕ → ℕ
bit x zero = x % 2
bit x (suc i) = bit (x / 2) i

-- The native operations run a recursion on binary digits with fuel; more fuel changes nothing.
module _ (z : ℕ → ℕ) (f : ℕ → ℕ → ℕ) where
  fuel_irrelevant :
      (fuel more a b : ℕ) → a ≤ fuel → a ≤ more → digits z f fuel a b ≡ digits z f more a b
  fuel_irrelevant zero zero a b lo hi = refl
  fuel_irrelevant zero (suc more) zero b lo hi = refl
  fuel_irrelevant zero (suc more) (suc a) b lo hi = absurd (omega arith)
  fuel_irrelevant (suc fuel) zero zero b lo hi = refl
  fuel_irrelevant (suc fuel) zero (suc a) b lo hi = absurd (omega arith)
  fuel_irrelevant (suc fuel) (suc more) zero b lo hi = refl
  fuel_irrelevant (suc fuel) (suc more) (suc a) b lo hi =
      rw (fuel_irrelevant fuel more (suc a / 2) (b / 2) (omega (arith, lo)) (omega (arith, hi)))

  lowest_digit :
      (a b : ℕ)
      → bitwise z f (suc a) b ≡ bitwise z f (suc a / 2) (b / 2) * 2 + f (suc a % 2) (b % 2)
  lowest_digit a b =
      omega (arith, fuel_irrelevant a (suc a / 2) (suc a / 2) (b / 2) (omega arith) (le_refl _))

bit_or_halves : (a b : ℕ) → bit_or a b ≡ bit_or (a / 2) (b / 2) * 2 + max (a % 2) (b % 2)
bit_or_halves zero b = simp bit_or-bitwise (omega arith)
bit_or_halves (suc a) b = simp bit_or-bitwise (lowest_digit (λ y. y) max a b)

bit_and_halves : (a b : ℕ) → bit_and a b ≡ bit_and (a / 2) (b / 2) * 2 + min (a % 2) (b % 2)
bit_and_halves zero b = simp bit_and-bitwise (omega arith)
bit_and_halves (suc a) b = simp bit_and-bitwise (lowest_digit (λ y. 0) min a b)

bit_or-zero_fuel : (n x : ℕ) → x ≤ n → bit_or x 0 ≡ x
bit_or-zero_fuel n zero h = bit_or-bitwise 0 0
bit_or-zero_fuel zero (suc x) h = absurd (omega arith)
bit_or-zero_fuel (suc n) (suc x) h =
    omega (arith, bit_or_halves (suc x) 0, bit_or-zero_fuel n (suc x / 2) (omega arith))

pub bit_or-zero : (x : ℕ) → bit_or x 0 ≡ x
bit_or-zero x = bit_or-zero_fuel x x (le_refl x)

pub zero-bit_or : (x : ℕ) → bit_or 0 x ≡ x
zero-bit_or x = bit_or-bitwise 0 x

pub bit-bit_or : (a b i : ℕ) → bit (bit_or a b) i ≡ max (bit a i) (bit b i)
bit-bit_or a b zero = omega (arith, bit_or_halves a b)
bit-bit_or a b (suc i) =
    let h : bit_or a b / 2 ≡ bit_or (a / 2) (b / 2) = omega (arith, bit_or_halves a b) in
    rw h (bit-bit_or (a / 2) (b / 2) i)

pub bit-zero : (i : ℕ) → bit 0 i ≡ 0
bit-zero zero = refl
bit-zero (suc i) = bit-zero i

-- a power of two has one bit
pub bit-two_pow : (i j : ℕ) → bit (2 ^ i) j ≡ (if i == j then 1 else 0)
bit-two_pow zero zero = refl
bit-two_pow zero (suc j) = ground (arith, bit-zero j)
bit-two_pow (suc i) zero = ground (arith, pow-suc 2 i)
bit-two_pow (suc i) (suc j) =
    let h : 2 ^ suc i / 2 ≡ 2 ^ i = omega (arith, pow-suc 2 i) in
    rw h (ground (arith, bit-two_pow i j))

bit_and-zero_fuel : (n x : ℕ) → x ≤ n → bit_and x 0 ≡ 0
bit_and-zero_fuel n zero h = refl
bit_and-zero_fuel zero (suc x) h = absurd (omega arith)
bit_and-zero_fuel (suc n) (suc x) h =
    omega (arith, bit_and_halves (suc x) 0, bit_and-zero_fuel n (suc x / 2) (omega arith))

bit_and-zero : (x : ℕ) → bit_and x 0 ≡ 0
bit_and-zero x = bit_and-zero_fuel x x (le_refl x)

-- `x & (1 << i)` reads bit `i`
pub bit_and-two_pow : (x i : ℕ) → bit_and x (2 ^ i) ≡ bit x i * 2 ^ i
bit_and-two_pow x zero = omega (arith, bit_and_halves x 1, bit_and-zero (x / 2))
bit_and-two_pow x (suc i) =
    let h : 2 ^ suc i / 2 ≡ 2 ^ i = omega (arith, pow-suc 2 i) in
    let e = rw h at (bit_and_halves x (2 ^ suc i)) in
    omega (
      arith,
      e,
      pow-suc 2 i,
      bit_and-two_pow (x / 2) i,
      ap (λ (t : ℕ). bit (x / 2) i * t) (pow-suc 2 i),
    )

-- `v >> d`
pub bit_shr : (x d i : ℕ) → bit (x / 2 ^ d) i ≡ bit x (i + d)
bit_shr x zero i = let e : x / 1 ≡ x = omega arith in let f : i + 0 ≡ i = omega arith in rw (e, f)
bit_shr x (suc d) i =
    let e : x / 2 ^ suc d ≡ x / 2 / 2 ^ d = rw (div-div-eq-div-mul x 2 (2 ^ d), pow-succ' 2 d) in
    let f : i + suc d ≡ suc (i + d) = omega arith in rw (e, f) (bit_shr (x / 2) d i)

mod_halves : (x w : ℕ) → x % 2 ^ suc w ≡ x / 2 % 2 ^ w * 2 + x % 2
mod_halves x w =
    let low = x / 2 % 2 ^ w * 2 + x % 2 in
    let q = x / 2 / 2 ^ w in
    let split : x ≡ low + q * 2 ^ suc w =
      omega (arith, div-add-mod (x / 2) (2 ^ w), ap (λ (t : ℕ). q * t) (pow-suc 2 w)) in
    let fits : low < 2 ^ suc w =
      omega (arith, pow-suc 2 w, mod-lt (x / 2) (one-le-pow w 2 (omega arith))) in
    ap (λ (t : ℕ). t % 2 ^ suc w) split
    ∙ add-mul-mod_self_right low q (2 ^ suc w)
    ∙ mod-eq_of_lt fits

-- truncation to `w` bits
pub bit_mod : (x w i : ℕ) → i < w → bit (x % 2 ^ w) i ≡ bit x i
bit_mod x zero i h = elim h [ ]
bit_mod x (suc w) zero h = omega (arith, mod_halves x w)
bit_mod x (suc w) (suc i) h =
    let e : x % 2 ^ suc w / 2 ≡ x / 2 % 2 ^ w = omega (arith, mod_halves x w) in
    rw e (bit_mod (x / 2) w i (omega arith))

double_pow : (x k : ℕ) → x * 2 ^ suc k ≡ 2 * (x * 2 ^ k)
double_pow x k = omega (arith, ap (λ (t : ℕ). x * t) (pow-suc 2 k))

-- `v << k`
pub bit_shl_low : (x k i : ℕ) → i < k → bit (x * 2 ^ k) i ≡ 0
bit_shl_low x zero i h = elim h [ ]
bit_shl_low x (suc k) zero h = omega (arith, double_pow x k)
bit_shl_low x (suc k) (suc i) h =
    let e : x * 2 ^ suc k / 2 ≡ x * 2 ^ k = omega (arith, double_pow x k) in
    rw e (bit_shl_low x k i (omega arith))

pub bit_shl_high : (x k i : ℕ) → bit (x * 2 ^ k) (i + k) ≡ bit x i
bit_shl_high x zero i =
    let e : x * 1 ≡ x = omega arith in let f : i + 0 ≡ i = omega arith in rw (e, f)
bit_shl_high x (suc k) i =
    let e : x * 2 ^ suc k / 2 ≡ x * 2 ^ k = omega (arith, double_pow x k) in
    let f : i + suc k ≡ suc (i + k) = omega arith in
    rw f (ap (λ (y : ℕ). bit y (i + k)) e ∙ bit_shl_high x k i)

-- a `w`-bit word has no bit from `w` on
pub bit_beyond : (x w i : ℕ) → x < 2 ^ w → w ≤ i → bit x i ≡ 0
bit_beyond x zero i h k = let e : x ≡ 0 = omega arith in rw e (bit-zero i)
bit_beyond x (suc w) zero h k = elim k [ ]
bit_beyond x (suc w) (suc i) h k = bit_beyond (x / 2) w i (omega (arith, pow-suc 2 w)) (omega arith)

-- `|` of two `w`-bit words is one
pub bit_or-lt : (w a b : ℕ) → a < 2 ^ w → b < 2 ^ w → bit_or a b < 2 ^ w
bit_or-lt zero a b h k =
    let e : a ≡ 0 = omega arith in let f : b ≡ 0 = omega arith in rw (e, f) (omega arith)
bit_or-lt (suc w) a b h k = omega (
  arith,
  pow-suc 2 w,
  bit_or_halves a b,
  bit_or-lt w (a / 2) (b / 2) (omega (arith, pow-suc 2 w)) (omega (arith, pow-suc 2 w)),
)

pub two_pow-lt : (i w : ℕ) → i < w → 2 ^ i < 2 ^ w
two_pow-lt zero zero h = elim h [ ]
two_pow-lt zero (suc w) h = omega (arith, pow-suc 2 w, one-le-pow w 2 (omega arith))
two_pow-lt (suc i) zero h = elim h [ ]
two_pow-lt (suc i) (suc w) h = omega (arith, pow-suc 2 w, pow-suc 2 i, two_pow-lt i w (omega arith))

pub bit-lt : (x i : ℕ) → bit x i < 2
bit-lt x zero = omega arith
bit-lt x (suc i) = bit-lt (x / 2) i
