-- ===== src/Exec/Inversion.antt =====
-- What a method that succeeded must have done: each step succeeded, and led to the next. The rules
-- keep the sessions in between as terms, so that their calls compute.
use provider_osb.Base.{ℕ, ◌≡◌, refl, inl, inr, ◌∷◌, arith, length}
use mathlib.Core.Path.{subst}
use provider_osb.Errors.{Fallible, done, Sentinel}
use provider_osb.Platform.{Call}
use provider_osb.Exec.{Exec, Session, ok, pure, lift, gets, ask, wrapping, ◌>>=◌}
use provider_osb.Exec.Rules.{Result-cases, Fallible-cases}

-- `m` succeeds from `s` with `a`, and leaves `t`.
pub record Succeeds {O A : Type 0} (m : Exec O A) (s : Session O) (a : A) (t : Session O)
    : Type 0 where
  pub result : (m s).0 ≡ ok a
  pub after : (m s).1 ≡ t

module _ {O A B C : Type 0} (f : A → Exec O B) {s : Session O} {b : B} {u : Session O} where
  pub bind-inv :
      (m : Exec O A)
      → Succeeds (m >>= f) s b u
      → ((a : A) → (m s).0 ≡ ok a → Succeeds (f a) (m s).1 b u → C)
      → C
  unfolding ◌>>=◌
  bind-inv m h k = elim (Result-cases (m s).0) [
    | inl (a, made) ↦
        k a made (record { result = ground (arith, h.result); after = ground (arith, h.after) })
    | inr failed ↦ absurd (ground (arith, h.result))
  ]

  pub bind_gets_inv :
      (g : O → A) → Succeeds (gets g >>= f) s b u → (Succeeds (f (g s.obj)) s b u → C) → C
  unfolding ◌>>=◌
  bind_gets_inv g h k = k (record { result = h.result; after = h.after })

  pub bind_lift_inv :
      {m : Fallible A}
      → Succeeds (lift m >>= f) s b u
      → ((a : A) → m ≡ done a → Succeeds (f a) s b u → C)
      → C
  unfolding ◌>>=◌
  bind_lift_inv {m} h k = elim (Fallible-cases m) [
    | inl (e, failed) ↦ absurd (ground (arith, h.result))
    | inr (a, made) ↦
        k a made (record { result = ground (arith, h.result); after = ground (arith, h.after) })
  ]

  -- A call whose answer may be a failure, which is wrapped.
  pub bind_ask_inv :
      (e : Sentinel) (c : Call O) (answers : ℕ → Fallible A)
      → Succeeds (wrapping e (ask c answers >>= lift) >>= f) s b u
      → ((a : A)
          → answers (length s.calls) ≡ done a
          → Succeeds (f a) (record s { calls = c ∷ s.calls }) b u
          → C)
      → C
  unfolding ◌>>=◌
  bind_ask_inv e c answers h k = elim (Fallible-cases (answers (length s.calls))) [
    | inl (x, failed) ↦ absurd (ground (arith, h.result))
    | inr (a, made) ↦
        k a made (record { result = ground (arith, h.result); after = ground (arith, h.after) })
  ]

module _ {O A : Type 0} where
  -- A wrapped method succeeds with the value of the method.
  pub wrapping_ok :
      (e : Sentinel) (m : Exec O A) (s : Session O) (a : A)
      → (wrapping e m s).0 ≡ ok a
      → ((m s).0 ≡ ok a) × ((wrapping e m s).1 ≡ (m s).1)
  unfolding ◌>>=◌
  wrapping_ok e m s a h = elim (Result-cases (m s).0) [
    | inl (b, made) ↦ (ground arith, refl)
    | inr failed ↦ absurd (ground arith)
  ]

-- The session that a step is known to have left takes its place.
pub Succeeds-from :
    {O A : Type 0} {m : Exec O A} {s t : Session O} {a : A} {u : Session O}
    → s ≡ t
    → Succeeds m s a u
    → Succeeds m t a u
Succeeds-from {m} {a} {u} same h = subst (λ t. Succeeds m t a u) same h

pub pure_ok :
    {O A : Type 0} {a b : A} {s t : Session O} → Succeeds (pure a) s b t → (a ≡ b) × (s ≡ t)
unfolding ◌>>=◌
pure_ok h = (ground (arith, h.result), h.after)
