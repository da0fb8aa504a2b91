-- ===== src/Peer/Replay.antt =====
-- internal/peer/replay.go: the sliding window that gates the nonces of DATA frames.
-- A uint64 is a number below 2 ^ 64, a word of the bitmap too. An index out of range is a panic:
-- `none`.
pub mod Slide
pub mod History
pub mod Word
pub mod Refinement
pub mod Gate
use Prim.Native.Nat.{bit_and, bit_or}
use network_project.Prelude.Maybe.{◌>>=◌}
use network_project.Prelude.{
  ℕ, zero, suc, ◌+◌, ◌-◌, ◌*◌, ◌/◌, ◌%◌, ◌^◌, Bool, true, false, not, List, [], ◌∷◌, Option, some,
  length, get_or, set, drop, replicate, ltb, leb, ◌==◌, if◌then◌else◌, get_elem?,
}

abbrev pub u64 : ℕ → ℕ
u64 n = n % 2 ^ 64

abbrev pub sub64 : ℕ → ℕ → ℕ
sub64 a b = (a + 2 ^ 64 - b) % 2 ^ 64

abbrev pub replay_window_size_bits : ℕ
replay_window_size_bits = 2048

pub record ReplayWindow : Type 0 where
  pub size : ℕ
  pub max : ℕ
  pub start : ℕ
  pub bits : List ℕ
  pub zero_seen : Bool

unfoldable pub new_replay_window : ℕ → ReplayWindow
new_replay_window size = record {
  size = size;
  max = 0;
  start = 0;
  bits = replicate (u64 (size + 63) / 64) 0;
  zero_seen = false;
}

unfoldable pub window_start : ℕ → ℕ → ℕ
window_start max size = if leb size max then u64 (sub64 max size + 1) else 0

unfoldable pub get_bit : ReplayWindow → ℕ → Option Bool
get_bit w idx = do
  word ← get_elem? w.bits (idx / 64)
  some (not (bit_and word (2 ^ (idx % 64)) == 0))

unfoldable pub set_bit : ReplayWindow → ℕ → Option ReplayWindow
set_bit w idx = do
  word ← get_elem? w.bits (idx / 64)
  some (record w { bits = set w.bits (idx / 64) (bit_or word (2 ^ (idx % 64))) })

unfoldable pub check : ReplayWindow → ℕ → Option Bool
check w nonce =
    if nonce == 0
    then some (not w.zero_seen)
    else if w.max == 0
    then some true
    else if ltb w.max nonce
    then some true
    else if ltb nonce w.start
    then some false
    else (do b ← get_bit w (sub64 nonce w.start); some (not b))

-- `nw[i] |= x`
abbrev pub or_at : List ℕ → ℕ → ℕ → List ℕ
or_at nw i x = set nw i (bit_or (get_or nw i 0) x)

-- The loop for `db == 0`: the list holds `w.bits[wi:]`, and the number is `wi - dw`.
unfoldable pub copy_words : ℕ → List ℕ → List ℕ → List ℕ
copy_words j [] nw = nw
copy_words j (v ∷ vs) nw = copy_words (suc j) vs (set nw j v)

-- `v << (64 - db)` goes to the word below, if there is one
unfoldable pub spill : ℕ → ℕ → ℕ → List ℕ → List ℕ
spill db zero v nw = nw
spill db (suc j) v nw = or_at nw j (u64 (v * 2 ^ (64 - db)))

-- The loop for `db != 0`.
unfoldable pub shift_words : ℕ → ℕ → List ℕ → List ℕ → List ℕ
shift_words db j [] nw = nw
shift_words db j (v ∷ vs) nw =
    shift_words db (suc j) vs (if v == 0 then nw else spill db j v (or_at nw j (v / 2 ^ db)))

unfoldable pub slide : List ℕ → ℕ → List ℕ
unfolding copy_words shift_words
slide bits shift =
    let dw = shift / 64 in
    let db = shift % 64 in
    let nw = replicate (length bits) 0 in
    if db == 0 then copy_words 0 (drop dw bits) nw else shift_words db 0 (drop dw bits) nw

-- `clear(w.bits)`
abbrev pub cleared : List ℕ → List ℕ
cleared bits = replicate (length bits) 0

unfoldable pub advance : ReplayWindow → ℕ → ReplayWindow
advance w nonce =
    let new_start = window_start nonce w.size in
    let shift = sub64 new_start w.start in
    let bits =
      if ltb 0 shift
      then (if leb w.size shift then cleared w.bits else slide w.bits shift)
      else w.bits in
    record w { bits = bits; start = new_start; max = nonce }

-- the state after `clear` for the first nonce that is not 0
abbrev pub restart : ReplayWindow → ℕ → ReplayWindow
restart w nonce = record w { max = nonce; start = window_start nonce w.size; bits = cleared w.bits }

unfoldable pub commit : ReplayWindow → ℕ → Option ReplayWindow
commit w nonce =
    if nonce == 0
    then some (record w { zero_seen = true })
    else if w.max == 0
    then set_bit (restart w nonce) (sub64 nonce (window_start nonce w.size))
    else (let w' = if ltb w.max nonce then advance w nonce else w in
        set_bit w' (sub64 nonce w'.start))

unfoldable pub accept : ReplayWindow → ℕ → Option (ReplayWindow × Bool)
accept w nonce = do
  fresh ← check w nonce
  if fresh then (do w' ← commit w nonce; some (w', true)) else some (w, false)
