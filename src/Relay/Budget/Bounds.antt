-- ===== src/Relay/Budget/Bounds.antt =====
-- relay.go: no key draws more than its cap in one window, whatever the other keys do.
use network_project.Prelude.Assoc.{lookup, lookup-insert, bytes_Eq}
use network_project.Prelude.Int.{ℤ}
use network_project.Relay.Budget.{Counter, Counters, limit, second, fresh_window, take_global, take}
use network_project.Prelude.{
  ℕ, ◌+◌, ◌-◌, ◌≤◌, ◌<◌, ◌≡◌, refl, sym, ap, ◌∙◌, inl, inr, false, ◌&&◌, List, [], ◌∷◌, Option,
  none, some, arith, Bytes, All, ltb, leb, if◌then◌else◌, Bool-cases, Option-cases, equal,
  equal_iff, equal_refl,
}

-- An enabled budget never counts beyond its cap, and an exhausted one refuses.
pub take_global-le :
    (c : Counter) (amount : ℕ) (cap : ℤ) (now : ℕ)
    → 0 < limit cap
    → c.count ≤ limit cap
    → (take_global c amount cap now).0.count ≤ limit cap
unfolding take_global
take_global-le c amount cap now p h = ground arith

-- One draw on the key under watch, inside its window.
take_same :
    (m : Counters) (k : Bytes) (c : Counter) (amount : ℕ) (cap : ℤ) (now : ℕ)
    → lookup k m ≡ some c
    → 0 < limit cap
    → c.count ≤ limit cap
    → now - c.start < second
    → (c' : Counter) × (lookup k (take m k amount cap now).0 ≡ some c')
      × (c'.start ≡ c.start)
      × (c'.count ≤ limit cap)
      × ((if (take m k amount cap now).1 then amount else 0) + c.count ≡ c'.count)
unfolding take
take_same m k c amount cap now e p h w = elim (Bool-cases (ltb (limit cap) (c.count + amount))) [
  | inl over ↦ (c, ground arith, refl, h, ground arith)
  | inr under ↦ (
    record c { count = c.count + amount },
    ground (arith, lookup-insert k k (record c { count = c.count + amount }) m, equal_refl k),
    refl,
    ground arith,
    ground arith,
  )
]

take_other :
    (m : Counters) (k j : Bytes) (amount : ℕ) (cap : ℤ) (now : ℕ)
    → equal j k ≡ false
    → lookup k (take m j amount cap now).0 ≡ lookup k m
unfolding take
take_other m k j amount cap now ne = elim (Option-cases (lookup j m)) [
  | inl e ↦ ground (arith, lookup-insert j k (fresh_window amount (limit cap) now) m)
  | inr (c, e) ↦ ground (
    arith,
    lookup-insert j k (fresh_window amount (limit cap) now) m,
    lookup-insert j k (record c { count = c.count + amount }) m,
  )
]

pub record Draw : Type 0 where
  pub key : Bytes
  pub amount : ℕ
  pub now : ℕ

-- What a sequence of draws grants to one key.
pub granted : Bytes → ℤ → Counters → List Draw → ℕ
granted k ceiling m [] = 0
granted k ceiling m (d ∷ ds) =
    let r = take m d.key d.amount ceiling d.now in
    (if equal d.key k && r.1 then d.amount else 0) + granted k ceiling r.0 ds

granted-live :
    (ds : List Draw) (k : Bytes) (ceiling : ℤ) (m : Counters) (c : Counter)
    → lookup k m ≡ some c
    → 0 < limit ceiling
    → c.count ≤ limit ceiling
    → All (λ d. d.now - c.start < second) ds
    → granted k ceiling m ds + c.count ≤ limit ceiling
unfolding granted
granted-live [] k ceiling m c e p h w = omega arith
granted-live (d ∷ ds) k ceiling m c e p h (w, ws) = elim (Bool-cases (equal d.key k)) [
  | inr other ↦
      let m' = (take m d.key d.amount ceiling d.now).0 in
      let kept = take_other m k d.key d.amount ceiling d.now other in
      rw other (omega (arith, granted-live ds k ceiling m' c (kept ∙ e) p h ws))
  | inl same ↦
      let key : d.key ≡ k = (equal_iff d.key k).0 same in
      let own : lookup d.key m ≡ some c = ap (λ (j : Bytes). lookup j m) key ∙ e in
      let (c', e', s, h', g) = take_same m d.key c d.amount ceiling d.now own p h w in
      let m' = (take m d.key d.amount ceiling d.now).0 in
      let own' : lookup k m' ≡ some c' = ap (λ (j : Bytes). lookup j m') (sym key) ∙ e' in
      let ws' = rw (← s) at ws in
      rw same (omega (arith, g, granted-live ds k ceiling m' c' own' p h' ws'))
]

-- What the window of a key holds at a time: nothing, if it has none that still lasts.
abbrev pub held : Option Counter → ℕ → ℕ
held none now = 0
held (some c) now = if leb second (now - c.start) then 0 else c.count

-- When the window began that a draw at a time counts in: with the draw, if none lasts.
abbrev pub window_from : Option Counter → ℕ → ℕ
window_from none now = now
window_from (some c) now = if leb second (now - c.start) then now else c.start

-- A draw on a key, whatever its window.
take_counts :
    (m : Counters) (k : Bytes) (amount : ℕ) (cap : ℤ) (now : ℕ)
    → 0 < limit cap
    → held (lookup k m) now ≤ limit cap
    → (c' : Counter) × (lookup k (take m k amount cap now).0 ≡ some c')
      × (c'.start ≡ window_from (lookup k m) now)
      × (c'.count ≤ limit cap)
      × ((if (take m k amount cap now).1 then amount else 0) + held (lookup k m) now ≤ c'.count)
unfolding take
take_counts m k amount cap now p h =
    let new = fresh_window amount (limit cap) now in
    let written = lookup-insert k k new m in
    elim (Option-cases (lookup k m)) [
      | inl e ↦ (
        new,
        ground (arith, e, written, equal_refl k),
        ground (arith, e),
        ground arith,
        ground (arith, e),
      )
      | inr (c, e) ↦ elim (Bool-cases (leb second (now - c.start))) [
        | inl over ↦ (
          new,
          ground (arith, e, over, written, equal_refl k),
          ground (arith, e, over),
          ground arith,
          ground (arith, e, over),
        )
        | inr on ↦
            let fits : c.count ≤ limit cap = ground (arith, e, on, h) in
            let (c', l, s, f, g) = take_same m k c amount cap now e p fits (ground (arith, on)) in
            (c', l, ground (arith, e, on, s), f, ground (arith, e, on, g))
      ]
    ]

-- From a draw on a key on, and while the window lasts that this draw counts in, which it opens if none
-- lasts: the draws granted to the key and what its window held before stay within the ceiling together,
-- with draws on any other keys in between.
pub granted-le :
    (ds : List Draw) (k : Bytes) (amount now : ℕ) (ceiling : ℤ) (m : Counters)
    → 0 < limit ceiling
    → held (lookup k m) now ≤ limit ceiling
    → All (λ d. d.now - window_from (lookup k m) now < second) ds
    → granted k ceiling m (record { key = k; amount = amount; now = now } ∷ ds)
        + held (lookup k m) now
      ≤ limit ceiling
unfolding granted
granted-le ds k amount now ceiling m p h w =
    let (c', l, s, f, g) = take_counts m k amount ceiling now p h in
    let m' = (take m k amount ceiling now).0 in
    let w' = rw (← s) at w in
    rw (equal_refl k) (omega (arith, g, granted-live ds k ceiling m' c' l p f w'))
