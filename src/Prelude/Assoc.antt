-- ===== src/Prelude/Assoc.antt =====
-- Go maps as association lists, over a key type with a Boolean equality.
use Prim.Native.Nat.{ℕ, suc, ◌≤◌}
use mathlib.Core.Path.{◌≡◌, refl, subst}
use mathlib.Core.Logic.{◌↔◌, inl, inr}
use mathlib.Core.Bool.{Bool, true, false}
use mathlib.Core.Option.{Option, none, some}
use mathlib.Core.List.{List, [], ◌∷◌}
use native.Mathlib.Omega.{arith}
use network_project.Prelude.Tests.{if◌then◌else◌, ◌==◌, ==_iff, Bool-cases}
use network_project.Prelude.Lists.{length}
use network_project.Prelude.ByteStrings.{Bytes, equal, equal_iff}

pub record Eq {ℓ} (A : Type ℓ) : Type ℓ where
  pub beq : A → A → Bool
  pub beq_iff : (j k : A) → (beq j k ≡ true) ↔ (j ≡ k)

instance abbrev pub nat_Eq : Eq ℕ
nat_Eq = record { beq = ◌==◌; beq_iff = ==_iff }

instance abbrev pub bytes_Eq : Eq Bytes
bytes_Eq = record { beq = equal; beq_iff = equal_iff }

module _ {ℓ κ} {K : Type ℓ} {V : Type κ} ⦃e : Eq K⦄ where
  -- `m[k]`
  unfoldable pub lookup : K → List (K × V) → Option V
  lookup k [] = none
  lookup k ((j, v) ∷ m) = if e.beq j k then some v else lookup k m

  -- `m[k] = v`
  unfoldable pub insert : K → V → List (K × V) → List (K × V)
  insert k v [] = (k, v) ∷ []
  insert k v ((j, w) ∷ m) = if e.beq j k then (k, v) ∷ m else (j, w) ∷ insert k v m

  -- `delete(m, k)`
  unfoldable pub delete : K → List (K × V) → List (K × V)
  delete k [] = []
  delete k ((j, v) ∷ m) = let rest = delete k m in if e.beq j k then rest else (j, v) ∷ rest

  -- the loop `for k, v := range m { if drop(v) { delete(m, k) } }`
  unfoldable pub sweep : (V → Bool) → List (K × V) → List (K × V)
  sweep drops [] = []
  sweep drops ((j, v) ∷ m) = let rest = sweep drops m in if drops v then rest else (j, v) ∷ rest

  pub lookup-insert :
      (k j : K) (v : V) (m : List (K × V))
      → lookup j (insert k v m) ≡ (if e.beq k j then some v else lookup j m)
  unfolding lookup insert
  lookup-insert k j v [] = refl
  lookup-insert k j v ((i, w) ∷ m) =
      ground (arith, e.beq_iff k j, e.beq_iff i k, e.beq_iff i j, lookup-insert k j v m)

  pub lookup-delete :
      (k j : K) (m : List (K × V))
      → lookup j (delete k m) ≡ (if e.beq k j then none else lookup j m)
  unfolding lookup delete
  lookup-delete k j [] = ground arith
  lookup-delete k j ((i, w) ∷ m) =
      ground (arith, e.beq_iff k j, e.beq_iff i k, e.beq_iff i j, lookup-delete k j m)

  pub length-insert : (k : K) (v : V) (m : List (K × V)) → length (insert k v m) ≤ suc (length m)
  unfolding insert
  length-insert k v [] = omega arith
  length-insert k v ((i, w) ∷ m) = ground (arith, length-insert k v m)

  -- A write to a key that is there keeps the size.
  pub length-insert_old :
      (k : K) (v w : V) (m : List (K × V)) → lookup k m ≡ some w → length (insert k v m) ≡ length m
  unfolding insert lookup
  length-insert_old k v w [] h = ground arith
  length-insert_old k v w ((i, x) ∷ m) h = ground (arith, length-insert_old k v w m)

  pub length-delete : (k : K) (m : List (K × V)) → length (delete k m) ≤ length m
  unfolding delete
  length-delete k [] = omega arith
  length-delete k ((i, w) ∷ m) = ground (arith, length-delete k m)

  pub length-sweep : (d : V → Bool) (m : List (K × V)) → length (sweep d m) ≤ length m
  unfolding sweep
  length-sweep d [] = omega arith
  length-sweep d ((i, w) ∷ m) = ground (arith, length-sweep d m)

  -- An entry that is looked up holds a property that every stored value has.
  abbrev pub Values {μ} : (V → Type μ) → List (K × V) → Type μ
  Values P [] = Unit {μ}
  Values P ((j, v) ∷ m) = P v × Values P m

module _ {ℓ κ} {K : Type ℓ} {V : Type κ} ⦃e : Eq K⦄ where
  -- An entry that the sweep does not drop is found as before.
  pub lookup-sweep :
      (drops : V → Bool) (k : K) (v : V) (m : List (K × V))
      → lookup k m ≡ some v
      → drops v ≡ false
      → lookup k (sweep drops m) ≡ some v
  unfolding lookup sweep
  lookup-sweep drops k v [] h d = ground arith
  lookup-sweep drops k v ((i, w) ∷ m) h d = ground (arith, lookup-sweep drops k v m)

module _ {ℓ κ μ} {K : Type ℓ} {V : Type κ} ⦃e : Eq K⦄ (P : V → Type μ) where
  pub Values-insert :
      (k : K) (v : V) (m : List (K × V)) → P v → Values P m → Values P (insert k v m)
  unfolding insert
  Values-insert k v [] p h = (p, h)
  Values-insert k v ((j, w) ∷ m) p h = go (e.beq j k) (Values-insert k v m p h.1)
    where
      go :
          (b : Bool)
          → Values P (insert k v m)
          → Values P (if b then (k, v) ∷ m else (j, w) ∷ insert k v m)
      go true r = (p, h.1)
      go false r = (h.0, r)

  pub Values-delete : (k : K) (m : List (K × V)) → Values P m → Values P (delete k m)
  unfolding delete
  Values-delete k [] h = h
  Values-delete k ((j, w) ∷ m) h = go (e.beq j k) (Values-delete k m h.1)
    where
      go :
          (b : Bool)
          → Values P (delete k m)
          → Values P (if b then delete k m else (j, w) ∷ delete k m)
      go true r = r
      go false r = (h.0, r)

  pub Values-lookup : (k : K) (v : V) (m : List (K × V)) → lookup k m ≡ some v → Values P m → P v
  unfolding lookup
  Values-lookup k v [] i h = cc i
  Values-lookup k v ((j, w) ∷ m) i h = elim (Bool-cases (e.beq j k)) [
    | inl here ↦ let same : w ≡ v = ground (arith, here, i) in subst P same h.0
    | inr other ↦
        let later : lookup k m ≡ some v = ground (arith, other, i) in Values-lookup k v m later h.1
  ]

module _ {ℓ κ μ} {K : Type ℓ} {V : Type κ} ⦃e : Eq K⦄ where
  pub Values-map :
      (P Q : V → Type μ) (m : List (K × V)) → ((v : V) → P v → Q v) → Values P m → Values Q m
  Values-map P Q [] f h = tt
  Values-map P Q ((j, w) ∷ m) f h = (f w h.0, Values-map P Q m f h.1)
