-- ===== src/Exec/Ensures.antt =====
-- What holds of the values that a method returns, from every session.
use provider_osb.Base.{ℕ, length, ◌∷◌, ◌≡◌, refl, Bool, true, false, if◌then◌else◌}
use mathlib.Core.Path.{subst}
use provider_osb.Errors.{Error, Sentinel, Fallible, done, fail}
use provider_osb.Platform.{Call}
use provider_osb.Exec.{
  Exec, Session, Result, ok, err, panic, pure, raise, crash, lift, ask, wrapping, wrap_result,
  continue, ◌>>=◌,
}

-- The value of a successful result has the property `R`.
abbrev Holds : {A : Type 0} → (R : A → Type 0) → Result A → Type 0
Holds R (ok a) = R a
Holds R (err e) = Unit
Holds R panic = Unit

Holds-ok : {A : Type 0} (R : A → Type 0) (r : Result A) (a : A) → Holds R r → r ≡ ok a → R a
Holds-ok R r a h e = subst (Holds R) e h

Holds-wrap_result :
    {A : Type 0} (R : A → Type 0) (e : Sentinel) (r : Result A)
    → Holds R r
    → Holds R (wrap_result e r)
Holds-wrap_result R e (ok a) h = h
Holds-wrap_result R e (err x) h = tt
Holds-wrap_result R e panic h = tt

-- Each value that `m` returns has the property `R`.
pub record Ensures {O A : Type 0} (R : A → Type 0) (m : Exec O A) : Type 0 where
  pub at : (s : Session O) (a : A) → (m s).0 ≡ ok a → R a

module _ {O A : Type 0} {R : A → Type 0} where
  of_Holds : (m : Exec O A) → ((s : Session O) → Holds R (m s).0) → Ensures R m
  of_Holds m h = record { at = λ s a e. Holds-ok R (m s).0 a (h s) e }

  Ensures-Holds : (m : Exec O A) (s : Session O) → Ensures R m → Holds R (m s).0
  Ensures-Holds m s h = go (m s).0 (h.at s)
    where
      go : (r : Result A) → ((a : A) → r ≡ ok a → R a) → Holds R r
      go (ok a) k = k a refl
      go (err e) k = tt
      go panic k = tt

  pub Ensures-pure : (a : A) → R a → Ensures R (pure {O = O} a)
  unfolding ◌>>=◌
  Ensures-pure a h = of_Holds (pure a) (λ s. h)

  pub Ensures-raise : (e : Error) → Ensures R (raise {O = O} e)
  unfolding ◌>>=◌
  Ensures-raise e = of_Holds (raise e) (λ s. tt)

  pub Ensures-crash : Ensures R (crash {O = O})
  unfolding ◌>>=◌
  Ensures-crash = of_Holds crash (λ s. tt)

  pub Ensures-wrapping : (e : Sentinel) (m : Exec O A) → Ensures R m → Ensures R (wrapping e m)
  unfolding ◌>>=◌
  Ensures-wrapping e m h =
      of_Holds (wrapping e m) (λ s. Holds-wrap_result R e (m s).0 (Ensures-Holds m s h))

  pub Ensures-if :
      (b : Bool) (m n : Exec O A) → Ensures R m → Ensures R n → Ensures R (if b then m else n)
  Ensures-if true m n km kn = km
  Ensures-if false m n km kn = kn

-- Nothing is asked of the value.
pub Ensures-any : {O A : Type 0} (m : Exec O A) → Ensures (λ _. Unit {0}) m
Ensures-any m = record { at = λ s a e. tt }

module _ {O A B : Type 0} {S : A → Type 0} {R : B → Type 0} where
  continue-Holds :
      (r : Result A) (f : A → Exec O B) (s : Session O)
      → Holds S r
      → ((a : A) → S a → Ensures R (f a))
      → Holds R (continue r f s).0
  continue-Holds (ok a) f s h k = Ensures-Holds (f a) s (k a h)
  continue-Holds (err e) f s h k = tt
  continue-Holds panic f s h k = tt

  pub Ensures-bind :
      (m : Exec O A) (f : A → Exec O B)
      → Ensures S m
      → ((a : A) → S a → Ensures R (f a))
      → Ensures R (m >>= f)
  unfolding ◌>>=◌
  Ensures-bind m f h k =
      of_Holds (m >>= f) (λ s. let (r, s') = m s in continue-Holds r f s' (Ensures-Holds m s h) k)

-- The steps whose value does not matter.
pub Ensures-then :
    {O A B : Type 0} {R : B → Type 0} (m : Exec O A) (f : A → Exec O B)
    → ((a : A) → Ensures R (f a))
    → Ensures R (m >>= f)
Ensures-then m f k = Ensures-bind m f (Ensures-any m) (λ a _. k a)

-- A lifted value is the one that was computed.
pub Ensures-lift : {O A : Type 0} (m : Fallible A) → Ensures (λ a. m ≡ done a) (lift {O = O} m)
unfolding ◌>>=◌
Ensures-lift (done a) = of_Holds (lift (done a)) (λ s. refl)
Ensures-lift (fail e) = of_Holds (lift (fail e)) (λ s. tt)

-- The value is an answer of the outside world.
pub Ensures-ask_bind :
    {O A B : Type 0} {R : B → Type 0} (c : Call O) (answers : ℕ → A) (f : A → Exec O B)
    → ((n : ℕ) → Ensures R (f (answers n)))
    → Ensures R (ask c answers >>= f)
unfolding ◌>>=◌
Ensures-ask_bind c answers f k = record {
  at = λ s a e. (k (length s.calls)).at (record s { calls = c ∷ s.calls }) a e;
}
