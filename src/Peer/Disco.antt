-- ===== src/Peer/Disco.antt =====
-- internal/disco/disco.go: the paths, the timing and the split of the roles. Times are in nanoseconds,
-- and a name is the list of its bytes.
use network_project.Prelude.{
  ℕ, ◌*◌, ◌≡◌, ◌≢◌, Bool, true, false, not, [], ◌∷◌, arith, Bytes, ltb, ◌==◌, if◌then◌else◌, ==_iff,
  refl, Bool-cases, inl, inr,
}

pub data DataPath : Type 0 where
  path_none path_direct path_relay : DataPath

abbrev pub millisecond : ℕ
millisecond = 1000000

abbrev pub second : ℕ
second = 1000 * millisecond

abbrev pub direct_attempt : ℕ
direct_attempt = 3 * second

abbrev pub relay_attempt : ℕ
relay_attempt = 3 * second

abbrev pub keepalive_interval : ℕ
keepalive_interval = 10 * second

abbrev pub reestablish_interval : ℕ
reestablish_interval = 10 * second

abbrev pub hs1_resend_interval : ℕ
hs1_resend_interval = 500 * millisecond

-- Go's `<` on strings
unfoldable pub role_is_initiator : Bytes → Bytes → Bool
role_is_initiator [] [] = false
role_is_initiator [] (y ∷ ys) = true
role_is_initiator (x ∷ xs) [] = false
role_is_initiator (x ∷ xs) (y ∷ ys) =
    let rest = role_is_initiator xs ys in if x == y then rest else ltb x y

-- Of two peers with different names exactly one is the initiator.
role_is_initiator_splits :
    (a b : Bytes) → a ≢ b → role_is_initiator a b ≡ not (role_is_initiator b a)
unfolding role_is_initiator
role_is_initiator_splits [] [] h = absurd (h refl)
role_is_initiator_splits [] (y ∷ ys) h = refl
role_is_initiator_splits (x ∷ xs) [] h = refl
role_is_initiator_splits (x ∷ xs) (y ∷ ys) h = elim (Bool-cases (x == y)) [
  | inl e ↦
      let same : x ≡ y = (==_iff x y).0 e in
      let rest = role_is_initiator_splits xs ys (λ k. h (cc (same, k))) in ground (arith, e, rest)
  | inr e ↦ ground (arith, e)
]
