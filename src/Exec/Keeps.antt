-- ===== src/Exec/Keeps.antt =====
-- Invariants of the object that a method works on, with one rule for each way to build a method.
use provider_osb.Base.{ℕ, Bool, true, false, Option, none, some, if◌then◌else◌, length}
use provider_osb.Errors.{Error, Fallible, done, fail, Sentinel}
use provider_osb.Platform.{KubeReply, Call}
use provider_osb.Exec.{
  Exec, Session, pure, raise, crash, lift, gets, deref, ask, modify, wrapping, kube_call, continue,
  Result, ok, err, panic, ◌>>=◌,
}

-- `m` keeps `Q`, whether it returns, fails or panics.
pub record Keeps {O A : Type 0} (Q : O → Type 0) (m : Exec O A) : Type 0 where
  pub at : (s : Session O) → Q s.obj → Q (m s).1.obj

module _ {O : Type 0} {Q : O → Type 0} where
  module _ {A : Type 0} where
    pub Keeps-pure : (a : A) → Keeps Q (pure a)
    unfolding ◌>>=◌
    Keeps-pure a = record { at = λ s h. h }

    pub Keeps-raise : (e : Error) → Keeps Q (raise {A = A} e)
    unfolding ◌>>=◌
    Keeps-raise e = record { at = λ s h. h }

    pub Keeps-crash : Keeps Q (crash {A = A})
    unfolding ◌>>=◌
    Keeps-crash = record { at = λ s h. h }

    pub Keeps-lift : (m : Fallible A) → Keeps Q (lift m)
    unfolding ◌>>=◌
    Keeps-lift (done a) = record { at = λ s h. h }
    Keeps-lift (fail e) = record { at = λ s h. h }

    pub Keeps-gets : (f : O → A) → Keeps Q (gets f)
    unfolding ◌>>=◌
    Keeps-gets f = record { at = λ s h. h }

    pub Keeps-deref : (p : Option A) → Keeps Q (deref p)
    unfolding ◌>>=◌
    Keeps-deref none = record { at = λ s h. h }
    Keeps-deref (some a) = record { at = λ s h. h }

    pub Keeps-wrapping : (e : Sentinel) (m : Exec O A) → Keeps Q m → Keeps Q (wrapping e m)
    unfolding ◌>>=◌
    Keeps-wrapping e m k = record { at = λ s h. k.at s h }

    pub Keeps-if :
        (b : Bool) (m n : Exec O A) → Keeps Q m → Keeps Q n → Keeps Q (if b then m else n)
    Keeps-if true m n km kn = km
    Keeps-if false m n km kn = kn

  pub Keeps-modify : (f : O → O) → ((o : O) → Q o → Q (f o)) → Keeps Q (modify f)
  unfolding ◌>>=◌
  Keeps-modify f k = record { at = λ s h. k s.obj h }

  pub Keeps-kube_call :
      (answers : ℕ → O → KubeReply O) (calls : O → Call O)
      → ((n : ℕ) (o : O) → Q o → Q (answers n o).object)
      → Keeps Q (kube_call answers calls)
  unfolding ◌>>=◌
  Keeps-kube_call answers calls k = record { at = λ s h. k (length s.calls) s.obj h }

  module _ {A B : Type 0} where
    pub continue_keeps :
        (r : Result A) (f : A → Exec O B) (s : Session O)
        → ((a : A) → Keeps Q (f a))
        → Q s.obj
        → Q (continue r f s).1.obj
    continue_keeps (ok a) f s k h = (k a).at s h
    continue_keeps (err e) f s k h = h
    continue_keeps panic f s k h = h

    pub Keeps-bind :
        (m : Exec O A) (f : A → Exec O B)
        → Keeps Q m
        → ((a : A) → Keeps Q (f a))
        → Keeps Q (m >>= f)
    unfolding ◌>>=◌
    Keeps-bind m f km kf = record {
      at = λ s h. let (r, s') = m s in continue_keeps r f s' kf (km.at s h);
    }

    -- A step that asks: its continuation is met only with answers of the outside world.
    pub Keeps-ask-bind :
        (c : Call O) (answers : ℕ → A) (f : A → Exec O B)
        → ((n : ℕ) → Keeps Q (f (answers n)))
        → Keeps Q (ask c answers >>= f)
    unfolding ◌>>=◌
    Keeps-ask-bind c answers f k = record { at = λ s h. (k (length s.calls)).at _ h }

    pub Keeps-gets-bind :
        (g : O → A) (f : A → Exec O B) → ((o : O) → Keeps Q (f (g o))) → Keeps Q (gets g >>= f)
    unfolding ◌>>=◌
    Keeps-gets-bind g f k = record { at = λ s h. (k s.obj).at s h }

pub ruleset keeps_rules = (
  Keeps-pure, Keeps-raise, Keeps-crash, Keeps-lift, Keeps-gets, Keeps-deref, Keeps-wrapping,
  Keeps-if, Keeps-bind,
)
