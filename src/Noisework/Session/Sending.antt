-- ===== src/Noisework/Session/Sending.antt =====
-- noisework.go: what `Send` seals, and under which key and nonce.
use native.Mathlib.Nat.{le_refl}
use mathlib.Core.Path.{subst}
use network_project.Noisework.Cipher.{Noise, CipherState, set_nonce, rekey_times}
use network_project.Noisework.Session.{
  SessionError, cipher_refused, nonce_exhausted, max_nonce, epoch_of, next64, Session,
  rekey_send_to, seal_next, send_from, send,
}
use network_project.Noisework.Session.Epochs.{
  epoch_of_step, epoch_of-le, rekey_times_from, rekey_loop_lem,
}
use network_project.Prelude.{
  ℕ, ◌+◌, ◌-◌, ◌^◌, ◌≤◌, ◌<◌, ◌≡◌, refl, sym, ap, ◌∙◌, inl, inr, true, false, List, [], ◌∷◌, none,
  some, arith, Bytes, All, ltb, Bool-cases, Option-cases, Result, ok, err, ge→ltb, lt→ltb, ltb→lt,
  ltb→ge,
}

module _ (noise : Noise) where
  open noise use {Key, rekey, seal, unseal}

  -- The send state has been rekeyed to an epoch, from the root key of the handshake, and the next
  -- nonce needs one rekey at most.
  pub record CanSend (root : Key) (s : Session noise) : Type 0 where
    pub state : CipherState noise
    pub is_state : s.send_state ≡ some state
    pub scheduled : state.key ≡ rekey_times noise s.send_epoch root
    pub count_fits : s.send_count < 2 ^ 64
    pub not_behind : s.send_epoch ≤ epoch_of s.send_count s.rekey_every
    pub one_ahead : epoch_of s.send_count s.rekey_every ≤ s.send_epoch + 1

  -- the key that a nonce is sealed under
  abbrev pub key_of : Key → ℕ → ℕ → Key
  key_of root every nonce = rekey_times noise (epoch_of nonce every) root

  rekey_send_to_lem :
      (root : Key) (s : Session noise) (v : CanSend root s)
      → rekey_send_to noise s v.state s.send_count ≡ (
        record s {
          send_state =
              some (record { key = key_of root s.rekey_every s.send_count; n = v.state.n });
          send_epoch = epoch_of s.send_count s.rekey_every;
        },
        record { key = key_of root s.rekey_every s.send_count; n = v.state.n },
        true,
      )
  unfolding rekey_send_to
  rekey_send_to_lem root s v =
      let ep = epoch_of s.send_count s.rekey_every in
      let key : rekey_times noise (ep - s.send_epoch) v.state.key
          ≡ key_of root s.rekey_every s.send_count =
        ap (rekey_times noise (ep - s.send_epoch)) v.scheduled
        ∙ rekey_times_from noise s.send_epoch ep root v.not_behind in
      let loop =
        rekey_loop_lem noise (ep - s.send_epoch) v.state s.send_epoch ep refl v.not_behind
          (omega (arith, v.count_fits, epoch_of-le s.send_count s.rekey_every))
          (omega (arith, v.one_ahead)) in
      rw loop (rw key)

  -- What `Send` answers at a nonce that is left: the plaintext sealed under the key of its epoch.
  abbrev pub answer : Key → ℕ → ℕ → Bytes → Result SessionError (ℕ × Bytes)
  answer root every nonce plaintext = elim (seal (key_of root every nonce) nonce plaintext) [
    | none ↦ err cipher_refused
    | some ct ↦ ok (nonce, ct)
  ]

  abbrev pub advanced : ℕ → Result SessionError (ℕ × Bytes) → ℕ
  advanced n (ok _) = n + 1
  advanced n (err _) = n

  -- What a call of `Send` leaves behind, with its answer.
  abbrev pub Sent :
      Key → Session noise → Bytes → Session noise × Result SessionError (ℕ × Bytes) → Type 0
  Sent root s plaintext r =
      (r.1 ≡ answer root s.rekey_every s.send_count plaintext)
      × CanSend root r.0
      × (r.0.send_count ≡ advanced s.send_count r.1)
      × (r.0.rekey_every ≡ s.rekey_every)

  seal_next_refused :
      (s : Session noise) (c : CipherState noise) (plaintext : Bytes)
      → seal c.key s.send_count plaintext ≡ none
      → seal_next noise s c plaintext
        ≡ (record s { send_state = some (set_nonce noise c s.send_count) }, err cipher_refused)
  unfolding seal_next
  seal_next_refused s c plaintext e = rw (e, seal_next)

  seal_next_sealed :
      (s : Session noise) (c : CipherState noise) (plaintext ct : Bytes)
      → seal c.key s.send_count plaintext ≡ some ct
      → seal_next noise s c plaintext ≡ (
        record s {
          send_state = some (record { key = c.key; n = s.send_count + 1 });
          send_count = next64 s.send_count;
        },
        ok (s.send_count, ct),
      )
  unfolding seal_next
  seal_next_sealed s c plaintext ct e = rw (e, seal_next)

  pub advanced-le : (n : ℕ) (r : Result SessionError (ℕ × Bytes)) → advanced n r ≤ n + 1
  advanced-le n (ok _) = omega arith
  advanced-le n (err _) = omega arith

  seal_next-Sent :
      (root : Key) (s : Session noise) (c : CipherState noise) (plaintext : Bytes)
      → c.key ≡ key_of root s.rekey_every s.send_count
      → s.send_epoch ≡ epoch_of s.send_count s.rekey_every
      → s.send_count ≤ max_nonce
      → Sent root s plaintext (seal_next noise s c plaintext)
  seal_next-Sent root s c plaintext k e f =
      let same : seal c.key s.send_count plaintext
          ≡ seal (key_of root s.rekey_every s.send_count) s.send_count plaintext =
        ap (λ (q : Key). seal q s.send_count plaintext) k in
      let due : c.key ≡ rekey_times noise s.send_epoch root =
        k ∙ ap (λ (i : ℕ). rekey_times noise i root) (sym e) in
      elim (Option-cases (seal c.key s.send_count plaintext)) [
        | inl none_is ↦ rw (seal_next_refused s c plaintext none_is) (
          rw (sym same ∙ none_is, answer),
          record {
            state = set_nonce noise c s.send_count;
            is_state = refl;
            scheduled = due;
            count_fits = omega arith;
            not_behind = omega (arith, e);
            one_ahead = omega (arith, e);
          },
          refl,
          refl,
        )
        | inr (ct, some_is) ↦
            let step : next64 s.send_count ≡ s.send_count + 1 = omega arith in
            rw (seal_next_sealed s c plaintext ct some_is) (
              rw (sym same ∙ some_is, answer),
              record {
                state = record { key = c.key; n = s.send_count + 1 };
                is_state = refl;
                scheduled = due;
                count_fits = omega arith;
                not_behind = rw step (omega (arith, e, epoch_of_step s.send_count s.rekey_every));
                one_ahead = rw step (omega (arith, e, epoch_of_step s.send_count s.rekey_every));
              },
              step,
              refl,
            )
      ]

  -- the session and the state once they are rekeyed for the next nonce
  abbrev due_state : Key → Session noise → ℕ → CipherState noise
  due_state root s n = record { key = key_of root s.rekey_every s.send_count; n = n }

  abbrev due : Key → Session noise → ℕ → Session noise
  due root s n = record s {
    send_state = some (due_state root s n);
    send_epoch = epoch_of s.send_count s.rekey_every;
  }

  send-seal_next :
      (root : Key) (s : Session noise) (plaintext : Bytes) (v : CanSend root s)
      → s.send_count ≤ max_nonce
      → send noise s plaintext
        ≡ seal_next noise (due root s v.state.n) (due_state root s v.state.n) plaintext
  unfolding send send_from
  send-seal_next root s plaintext v f =
      let within : ltb max_nonce s.send_count ≡ false = ge→ltb max_nonce s.send_count f in
      rw (v.is_state, send) (rw (within, rekey_send_to_lem root s v))

  -- While a nonce is left, `Send` is never refused by the rekey limit: it answers with the plaintext
  -- sealed under the key of the nonce's epoch, or with the cipher's own refusal, counts the nonce
  -- exactly if it was used, and can go on.
  pub send-Sent :
      (root : Key) (s : Session noise) (plaintext : Bytes)
      → CanSend root s
      → s.send_count ≤ max_nonce
      → Sent root s plaintext (send noise s plaintext)
  send-Sent root s plaintext v f =
      subst (Sent root s plaintext) (sym (send-seal_next root s plaintext v f)) (
        seal_next-Sent root (due root s v.state.n) (due_state root s v.state.n) plaintext refl refl
          f)

  -- What a sequence of calls puts on the wire: the nonce, ciphertext and plaintext of each success.
  pub record Wire : Type 0 where
    pub nonce : ℕ
    pub ciphertext : Bytes
    pub plaintext : Bytes

  abbrev pub emitted : Bytes → Result SessionError (ℕ × Bytes) → List Wire → List Wire
  emitted plaintext (ok (n, ct)) ws =
      record { nonce = n; ciphertext = ct; plaintext = plaintext } ∷ ws
  emitted plaintext (err e) ws = ws

  unfoldable pub send_all : Session noise → List Bytes → List Wire
  send_all s [] = []
  send_all s (p ∷ ps) = let r = send noise s p in emitted p r.1 (send_all r.0 ps)

  abbrev pub IsSealed : Key → ℕ → Wire → Type 0
  IsSealed root every w = seal (key_of root every w.nonce) w.nonce w.plaintext ≡ some w.ciphertext

  -- Nonces from `lo` on, each above the one before.
  abbrev pub Ascending : ℕ → List Wire → Type 0
  Ascending lo [] = Unit {0}
  Ascending lo (w ∷ ws) = (lo ≤ w.nonce) × Ascending (w.nonce + 1) ws

  abbrev pub InRange : Wire → Type 0
  InRange w = w.nonce ≤ max_nonce

  abbrev Schedule : Key → ℕ → ℕ → List Wire → Type 0
  Schedule root every lo ws = Ascending lo ws × All InRange ws × All (IsSealed root every) ws

  emitted-Schedule :
      (root : Key) (every n : ℕ) (p : Bytes) (r : Result SessionError (ℕ × Bytes)) (ws : List Wire)
      → n ≤ max_nonce
      → r ≡ answer root every n p
      → Schedule root every (advanced n r) ws
      → Schedule root every n (emitted p r ws)
  emitted-Schedule root every n p (err e) ws f h k = k
  emitted-Schedule root every n p (ok (m, ct)) ws f h k =
      elim (Option-cases (seal (key_of root every n) n p)) [
        | inl e ↦ cc (h, e)
        | inr (ct', e) ↦
            let same : m ≡ n = ground (arith, h, e) in
            let text : ct' ≡ ct = ground (arith, h, e) in
            rw same ((le_refl n, k.0), (f, k.1), (rw text at e, k.2))
      ]

  -- At the last count no nonce is left, and `Send` refuses.
  send_exhausted :
      (root : Key) (s : Session noise) (plaintext : Bytes)
      → CanSend root s
      → max_nonce < s.send_count
      → send noise s plaintext ≡ (s, err nonce_exhausted)
  unfolding send send_from
  send_exhausted root s plaintext v f =
      simp (v.is_state, send, lt→ltb max_nonce s.send_count f) refl

  -- Over any sequence of calls, also past the last nonce, no nonce is used twice: they ascend from the
  -- session's count, none is above MaxNonce, and each plaintext is sealed under the key of its nonce's
  -- epoch.
  pub send_all-Schedule :
      (root : Key) (s : Session noise) (ps : List Bytes)
      → CanSend root s
      → Ascending s.send_count (send_all s ps)
        × All InRange (send_all s ps)
        × All (IsSealed root s.rekey_every) (send_all s ps)
  unfolding send_all
  send_all-Schedule root s [] v = (tt, tt, tt)
  send_all-Schedule root s (p ∷ ps) v = elim (Bool-cases (ltb max_nonce s.send_count)) [
    | inl spent ↦
        let e = send_exhausted root s p v (ltb→lt max_nonce s.send_count spent) in
        rw e (send_all-Schedule root s ps v)
    | inr left ↦
        let f = ltb→ge max_nonce s.send_count left in
        let (a, v', n, e) = send-Sent root s p v f in
        let r = send noise s p in
        let rest = send_all-Schedule root r.0 ps v' in
        emitted-Schedule root s.rekey_every s.send_count p r.1 (send_all r.0 ps) f a (
          subst (λ k. Ascending k (send_all r.0 ps)) n rest.0,
          rest.1,
          subst (λ k. All (IsSealed root k) (send_all r.0 ps)) e rest.2,
        )
  ]
