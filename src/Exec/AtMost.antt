-- ===== src/Exec/AtMost.antt =====
-- How many calls of the outside world a method makes.
use provider_osb.Base.{
  ℕ, suc, ◌+◌, ◌≤◌, Bool, true, false, inl, inr, Option, none, some, ◌∷◌, arith, length,
  if◌then◌else◌,
}
use provider_osb.Errors.{Error, Fallible, done, fail, Sentinel}
use provider_osb.Platform.{KubeReply, Call}
use provider_osb.Exec.{
  Exec, Session, pure, raise, crash, lift, gets, deref, ask, modify, wrapping, kube_call, ◌>>=◌,
}
use provider_osb.Exec.Rules.{Result-cases}

-- From each session `m` adds at most `n` calls, whether it succeeds or not.
pub record AtMost {O A : Type 0} (n : ℕ) (m : Exec O A) : Type 0 where
  pub at : (s : Session O) → length (m s).1.calls ≤ length s.calls + n

module _ {O A : Type 0} where
  pub AtMost-pure : (n : ℕ) (a : A) → AtMost n (pure {O = O} a)
  unfolding ◌>>=◌
  AtMost-pure n a = record { at = λ s. omega arith }

  pub AtMost-raise : (n : ℕ) (e : Error) → AtMost n (raise {O = O} {A = A} e)
  unfolding ◌>>=◌
  AtMost-raise n e = record { at = λ s. omega arith }

  pub AtMost-crash : (n : ℕ) → AtMost n (crash {O = O} {A = A})
  unfolding ◌>>=◌
  AtMost-crash n = record { at = λ s. omega arith }

  pub AtMost-lift : (n : ℕ) (m : Fallible A) → AtMost n (lift {O = O} m)
  unfolding ◌>>=◌
  AtMost-lift n (done a) = record { at = λ s. omega arith }
  AtMost-lift n (fail e) = record { at = λ s. omega arith }

  pub AtMost-deref : (n : ℕ) (o : Option A) → AtMost n (deref {O = O} o)
  unfolding ◌>>=◌
  AtMost-deref n none = record { at = λ s. omega arith }
  AtMost-deref n (some a) = record { at = λ s. omega arith }

  pub AtMost-wrapping : (n : ℕ) (e : Sentinel) (m : Exec O A) → AtMost n m → AtMost n (wrapping e m)
  unfolding ◌>>=◌
  AtMost-wrapping n e m h = record { at = λ s. h.at s }

  pub AtMost-if :
      (n : ℕ) (b : Bool) (m k : Exec O A) → AtMost n m → AtMost n k → AtMost n (if b then m else k)
  AtMost-if n true m k hm hk = hm
  AtMost-if n false m k hm hk = hk

module _ {O : Type 0} where
  pub AtMost-modify : (n : ℕ) (f : O → O) → AtMost n (modify f)
  unfolding ◌>>=◌
  AtMost-modify n f = record { at = λ s. omega arith }

  pub AtMost-kube_call :
      (n : ℕ) (answers : ℕ → O → KubeReply O) (call : O → Call O)
      → AtMost (suc n) (kube_call answers call)
  unfolding ◌>>=◌
  AtMost-kube_call n answers call = record { at = λ s. omega arith }

module _ {O A B : Type 0} where
  pub AtMost-bind :
      (n k : ℕ) (m : Exec O A) (f : A → Exec O B)
      → AtMost n m
      → ((a : A) → AtMost k (f a))
      → AtMost (n + k) (m >>= f)
  unfolding ◌>>=◌
  AtMost-bind n k m f hm hf = record {
    at = λ s. elim (Result-cases (m s).0) [
      | inl (a, made) ↦ let first = hm.at s in let second = (hf a).at (m s).1 in ground arith
      | inr refused ↦ let first = hm.at s in ground arith
    ];
  }

  pub AtMost-gets_bind :
      (n : ℕ) (g : O → A) (f : A → Exec O B) → ((a : A) → AtMost n (f a)) → AtMost n (gets g >>= f)
  unfolding ◌>>=◌
  AtMost-gets_bind n g f h = record { at = λ s. (h (g s.obj)).at s }

  pub AtMost-lift_bind :
      (n : ℕ) (m : Fallible A) (f : A → Exec O B)
      → ((a : A) → AtMost n (f a))
      → AtMost n (lift m >>= f)
  unfolding ◌>>=◌
  AtMost-lift_bind n (done a) f h = record { at = λ s. (h a).at s }
  AtMost-lift_bind n (fail e) f h = record { at = λ s. omega arith }

  pub AtMost-ask_bind :
      (n : ℕ) (c : Call O) (answers : ℕ → A) (f : A → Exec O B)
      → ((a : A) → AtMost n (f a))
      → AtMost (suc n) (ask c answers >>= f)
  unfolding ◌>>=◌
  AtMost-ask_bind n c answers f h = record {
    at = λ s.
        let rest = (h (answers (length s.calls))).at (record s { calls = c ∷ s.calls }) in
        omega (arith, rest);
  }
