-- ===== src/Exec/Survives.antt =====
-- Methods that do not dereference a nil pointer.
use provider_osb.Base.{ℕ, Bool, true, false, ◌≢◌, arith, inl, inr, ◌∷◌, length, if◌then◌else◌}
use provider_osb.Errors.{Error, Fallible, Sentinel}
use provider_osb.Platform.{KubeReply, Call}
use provider_osb.Exec.{
  Exec, Session, panic, pure, raise, lift, gets, ask, modify, wrapping, kube_call, ◌>>=◌,
}
use provider_osb.Exec.Rules.{Result-cases}

-- From no session does `m` panic.
pub record Survives {O A : Type 0} (m : Exec O A) : Type 0 where
  pub at : (s : Session O) → (m s).0 ≢ panic

module _ {O A : Type 0} where
  pub Survives-pure : (a : A) → Survives (pure {O = O} a)
  unfolding ◌>>=◌
  Survives-pure a = record { at = λ s. ground arith }

  pub Survives-raise : (e : Error) → Survives (raise {O = O} {A = A} e)
  unfolding ◌>>=◌
  Survives-raise e = record { at = λ s. ground arith }

  pub Survives-lift : (m : Fallible A) → Survives (lift {O = O} m)
  unfolding ◌>>=◌
  Survives-lift m = record { at = λ s. ground arith }

  pub Survives-gets : (f : O → A) → Survives (gets f)
  unfolding ◌>>=◌
  Survives-gets f = record { at = λ s. ground arith }

  pub Survives-wrapping : (e : Sentinel) (m : Exec O A) → Survives m → Survives (wrapping e m)
  unfolding ◌>>=◌
  Survives-wrapping e m h = record { at = λ s. ground (arith, h.at s) }

  pub Survives-if :
      (b : Bool) (m n : Exec O A) → Survives m → Survives n → Survives (if b then m else n)
  Survives-if true m n km kn = km
  Survives-if false m n km kn = kn

module _ {O : Type 0} where
  pub Survives-modify : (f : O → O) → Survives (modify f)
  unfolding ◌>>=◌
  Survives-modify f = record { at = λ s. ground arith }

  pub Survives-kube_call :
      (answers : ℕ → O → KubeReply O) (call : O → Call O) → Survives (kube_call answers call)
  unfolding ◌>>=◌
  Survives-kube_call answers call = record { at = λ s. ground arith }

module _ {O A B : Type 0} where
  pub Survives-bind :
      (m : Exec O A) (f : A → Exec O B)
      → Survives m
      → ((a : A) → Survives (f a))
      → Survives (m >>= f)
  unfolding ◌>>=◌
  Survives-bind m f h k = record {
    at = λ s. elim (Result-cases (m s).0) [
      | inl (a, made) ↦ ground (arith, (k a).at (m s).1)
      | inr refused ↦ ground (arith, h.at s)
    ];
  }

  -- The answer of the outside world is one that it gives.
  pub Survives-ask_bind :
      (c : Call O) (answers : ℕ → A) (f : A → Exec O B)
      → ((n : ℕ) → Survives (f (answers n)))
      → Survives (ask c answers >>= f)
  unfolding ◌>>=◌
  Survives-ask_bind c answers f k = record {
    at = λ s. (k (length s.calls)).at (record s { calls = c ∷ s.calls });
  }
