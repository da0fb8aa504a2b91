-- ===== src/Peer/Replay/Word.antt =====
-- replay.go: `getBit` and `setBit` read and write one bit of the bitmap, and nothing else.
use Prim.Native.Nat.{bit_or}
use native.Mathlib.Nat.{one-le-pow}
use network_project.Bits.{
  bit, bit-lt, bit-bit_or, bit-two_pow, bit_and-two_pow, bit_or-lt, two_pow-lt,
}
use network_project.Peer.Replay.{ReplayWindow, get_bit, set_bit}
use network_project.Peer.Replay.Slide.{word_bit, IsWord}
use network_project.Prelude.{
  get_elem?-get_or, get_or-set_self, get_or-set_ne, All-set, All-get_or, ℕ, zero, suc, ◌*◌, ◌/◌,
  ◌%◌, ◌^◌, ◌<◌, ◌≡◌, ◌∙◌, ◌≢◌, inl, inr, false, not, List, some, arith, All, length, get_or, set,
  ◌==◌, if◌then◌else◌, Bool-cases,
}

mask_test : (b p : ℕ) → 0 < p → b < 2 → (b * p == 0) ≡ (b == 0)
mask_test zero p h k = ground arith
mask_test (suc zero) p h k = ground arith
mask_test (suc (suc b)) p h k = absurd (omega arith)

-- A read inside the bitmap does not panic.
pub get_bit_lem :
    (w : ReplayWindow) (idx : ℕ)
    → idx / 64 < length w.bits
    → get_bit w idx ≡ some (not (word_bit w.bits idx == 0))
unfolding get_bit
get_bit_lem w idx h = rw (get_elem?-get_or w.bits (idx / 64) 0 h) (
    rw (bit_and-two_pow (get_or w.bits (idx / 64) 0) (idx % 64)) (
      rw (
        mask_test (word_bit w.bits idx) (2 ^ (idx % 64)) (one-le-pow (idx % 64) 2 (omega arith))
          (bit-lt (get_or w.bits (idx / 64) 0) (idx % 64)))))

abbrev pub with_bit : List ℕ → ℕ → List ℕ
with_bit ws idx = set ws (idx / 64) (bit_or (get_or ws (idx / 64) 0) (2 ^ (idx % 64)))

-- Nor does a write.
pub set_bit_lem :
    (w : ReplayWindow) (idx : ℕ)
    → idx / 64 < length w.bits
    → set_bit w idx ≡ some (record w { bits = with_bit w.bits idx })
unfolding set_bit
set_bit_lem w idx h = rw (get_elem?-get_or w.bits (idx / 64) 0 h)

set_in_word : (word r s : ℕ) → bit (bit_or word (2 ^ r)) s ≡ (if r == s then 1 else bit word s)
set_in_word word r s = bit-bit_or word (2 ^ r) s ∙ ground (arith, bit-two_pow r s, bit-lt word s)

pub word_bit-with_bit :
    (ws : List ℕ) (idx j : ℕ)
    → idx / 64 < length ws
    → word_bit (with_bit ws idx) j ≡ (if idx == j then 1 else word_bit ws j)
word_bit-with_bit ws idx j h = elim (Bool-cases (idx / 64 == j / 64)) [
  | inr apart ↦
      let ne : idx / 64 ≢ j / 64 = ground arith in
      let other : (idx == j) ≡ false = ground arith in
      rw other (rw (get_or-set_ne ws (idx / 64) (j / 64) _ 0 ne))
  | inl same ↦
      let e : j / 64 ≡ idx / 64 = ground arith in
      let word = get_or ws (idx / 64) 0 in
      let t : (idx % 64 == j % 64) ≡ (idx == j) = ground arith in
      rw (e, get_or-set_self ws (idx / 64) (bit_or word (2 ^ (idx % 64))) 0 h)
        (set_in_word word (idx % 64) (j % 64) ∙ rw t)
]

pub with_bit-IsWord : (ws : List ℕ) (idx : ℕ) → All IsWord ws → All IsWord (with_bit ws idx)
with_bit-IsWord ws idx h = All-set IsWord ws (idx / 64) _ h (
    bit_or-lt 64 (get_or ws (idx / 64) 0) (2 ^ (idx % 64))
      (All-get_or IsWord ws (idx / 64) 0 h (omega arith)) (two_pow-lt (idx % 64) 64 (omega arith)))
