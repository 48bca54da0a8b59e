-- ===== src/Exec/Leads.antt =====
-- From what holds of the object before a method to what holds of it after, with one rule for each way
-- to build a method.
use provider_osb.Base.{ℕ, Bool, true, false, ◌≡◌, refl, if◌then◌else◌, length}
use provider_osb.Errors.{Fallible, done, fail, Sentinel}
use provider_osb.Platform.{Call}
use provider_osb.Exec.{
  Exec, Session, lift, gets, ask, modify, wrapping, continue, Result, ok, err, panic, ◌>>=◌,
}
use provider_osb.Exec.Keeps.{Keeps, continue_keeps}

-- If `Q` holds of the object, then `R` holds of it after `m`, whether `m` returns, fails or panics.
pub record Leads {O A : Type 0} (Q R : O → Type 0) (m : Exec O A) : Type 0 where
  pub at : (s : Session O) → Q s.obj → R (m s).1.obj

-- `R` is weaker than `Q`.
abbrev pub Weakens : {O : Type 0} → (O → Type 0) → (O → Type 0) → Type 0
Weakens {O} Q R = (o : O) → Q o → R o

module _ {O : Type 0} {Q R : O → Type 0} where
  module _ {A : Type 0} where
    pub Leads-weaken : (m : Exec O A) → Weakens Q R → Keeps Q m → Leads Q R m
    Leads-weaken m weaken k = record { at = λ s h. weaken (m s).1.obj (k.at s h) }

    pub Leads-wrapping : (e : Sentinel) (m : Exec O A) → Leads Q R m → Leads Q R (wrapping e m)
    unfolding ◌>>=◌
    Leads-wrapping e m k = record { at = λ s h. k.at s h }

    pub Leads-if :
        (b : Bool) (m n : Exec O A) → Leads Q R m → Leads Q R n → Leads Q R (if b then m else n)
    Leads-if true m n km kn = km
    Leads-if false m n km kn = kn

    -- Each branch may use the test.
    pub Leads-if_known :
        (b : Bool) (m n : Exec O A)
        → (b ≡ true → Leads Q R m)
        → (b ≡ false → Leads Q R n)
        → Leads Q R (if b then m else n)
    Leads-if_known true m n km kn = km refl
    Leads-if_known false m n km kn = kn refl

  pub Leads-modify : (f : O → O) → ((o : O) → Q o → R (f o)) → Leads Q R (modify f)
  unfolding ◌>>=◌
  Leads-modify f k = record { at = λ s h. k s.obj h }

  module _ {A B : Type 0} where
    -- The first step leads to `R`, and the others keep it.
    pub Leads-keep :
        (m : Exec O A) (f : A → Exec O B)
        → Leads Q R m
        → ((a : A) → Keeps R (f a))
        → Leads Q R (m >>= f)
    unfolding ◌>>=◌
    Leads-keep m f km kf = record {
      at = λ s h. let (r, s') = m s in continue_keeps r f s' kf (km.at s h);
    }

    module _ (weaken : Weakens Q R) where
      continue_leads :
          (r : Result A) (f : A → Exec O B) (s : Session O)
          → ((a : A) → Leads Q R (f a))
          → Q s.obj
          → R (continue r f s).1.obj
      continue_leads (ok a) f s k h = (k a).at s h
      continue_leads (err e) f s k h = weaken s.obj h
      continue_leads panic f s k h = weaken s.obj h

      -- The first step keeps `Q`, and the others lead to `R`.
      pub Leads-then :
          (m : Exec O A) (f : A → Exec O B)
          → Keeps Q m
          → ((a : A) → Leads Q R (f a))
          → Leads Q R (m >>= f)
      unfolding ◌>>=◌
      Leads-then m f km kf = record {
        at = λ s h. let (r, s') = m s in continue_leads r f s' kf (km.at s h);
      }

      pub Leads-lift_bind :
          (m : Fallible A) (f : A → Exec O B)
          → ((a : A) → Leads Q R (f a))
          → Leads Q R (lift m >>= f)
      unfolding ◌>>=◌
      Leads-lift_bind (done a) f k = record { at = λ s h. (k a).at s h }
      Leads-lift_bind (fail e) f k = record { at = λ s h. weaken s.obj h }

    pub Leads-ask_bind :
        (c : Call O) (answers : ℕ → A) (f : A → Exec O B)
        → ((a : A) → Leads Q R (f a))
        → Leads Q R (ask c answers >>= f)
    unfolding ◌>>=◌
    Leads-ask_bind c answers f k = record { at = λ s h. (k (answers (length s.calls))).at _ h }

    pub Leads-gets_bind :
        (g : O → A) (f : A → Exec O B) → ((a : A) → Leads Q R (f a)) → Leads Q R (gets g >>= f)
    unfolding ◌>>=◌
    Leads-gets_bind g f k = record { at = λ s h. (k (g s.obj)).at s h }
