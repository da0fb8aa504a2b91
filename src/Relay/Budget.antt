-- ===== src/Relay/Budget.antt =====
-- relay.go: the one-second budgets, `take` and `takeGlobal`. Time counts nanoseconds from Go's zero
-- time; `Sub` saturates far above every limit that it is compared with. An amount is 65,535 at most,
-- and a count its cap, so that a sum of the two overflows Go's int only where a cap is set within that
-- of MaxInt; it is not cut here.
pub mod Bounds
use network_project.Prelude.Assoc.{lookup, insert, bytes_Eq}
use network_project.Prelude.Int.{ℤ, pos, negsuc}
use network_project.Prelude.{
  ℕ, zero, suc, ◌+◌, ◌-◌, ◌*◌, ◌/◌, ◌%◌, ◌^◌, ◌≤◌, ◌<◌, ◌≡◌, refl, sym, ap, ◌∙◌, ◌≢◌, ◌↔◌, ◌⊎◌, inl,
  inr, Bool, true, false, not, ◌&&◌, ◌||◌, List, [], ◌∷◌, ◌++◌, map, Option, none, some, arith,
  Bytes, AllBytes, All, length, get_or, ltb, leb, ◌==◌, if◌then◌else◌, Bool-cases, Option-cases,
  Result, ok, err, ◌>>=◌, ◌>>◌, fail_if, wrap, put_u16, u16_at, equal, equal_iff, equal_refl,
  length-append,
}

abbrev pub second : ℕ
second = 1_000_000_000

pub record Counter : Type 0 where
  pub start : ℕ
  pub count : ℕ

-- A cap of 0 or less disables the budget: its limit is 0 here.
abbrev pub limit : ℤ → ℕ
limit (pos n) = n
limit (negsuc n) = 0

-- `eff` in a new window that opens at `now`
abbrev pub fresh_window : ℕ → ℕ → ℕ → Counter
fresh_window amount cap now = record { start = now; count = if ltb cap amount then cap else amount }

unfoldable pub take_global : Counter → ℕ → ℤ → ℕ → Counter × Bool
take_global c amount cap now =
    if limit cap == 0
    then (c, true)
    else if leb second (now - c.start)
    then (fresh_window amount (limit cap) now, leb amount (limit cap))
    else if ltb (limit cap) (c.count + amount)
    then (c, false)
    else (record c { count = c.count + amount }, true)

-- the budgets of one kind, by key
abbrev pub Counters : Type 0
Counters = List (Bytes × Counter)

unfoldable pub take : Counters → Bytes → ℕ → ℤ → ℕ → Counters × Bool
take m key amount cap now = if limit cap == 0 then (m, true) else elim (lookup key m) [
  | none ↦ (insert key (fresh_window amount (limit cap) now) m, leb amount (limit cap))
  | some c ↦
      if leb second (now - c.start)
      then (insert key (fresh_window amount (limit cap) now) m, leb amount (limit cap))
      else if ltb (limit cap) (c.count + amount)
      then (m, false)
      else (insert key (record c { count = c.count + amount }) m, true)
]
