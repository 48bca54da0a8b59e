-- ===== src/Exec/Rules.antt =====
-- Rules for splitting on what a method has computed, with its equation kept.
use provider_osb.Base.{◌≡◌, refl, ◌⊎◌, inl, inr, Option}
use provider_osb.Errors.{Error, Fallible, done, fail}
use provider_osb.Osb.{Reply, answer, failure}
use provider_osb.Exec.{Result, ok, err, panic}

pub Fallible-cases {ℓ} :
    {A : Type ℓ} (m : Fallible A) → ((e : Error) × (m ≡ fail e)) ⊎ ((a : A) × (m ≡ done a))
Fallible-cases (fail e) = inl (e, refl)
Fallible-cases (done a) = inr (a, refl)

pub Result-cases :
    {A : Type 0} (r : Result A)
    → ((a : A) × (r ≡ ok a)) ⊎ (((e : Error) × (r ≡ err e)) ⊎ (r ≡ panic))
Result-cases (ok a) = inl (a, refl)
Result-cases (err e) = inr (inl (e, refl))
Result-cases panic = inr (inr refl)

pub Reply-cases {ℓ} :
    {A : Type ℓ} (r : Reply A) → ((e : Error) × (r ≡ failure e)) ⊎ ((a : Option A) × (r ≡ answer a))
Reply-cases (failure e) = inl (e, refl)
Reply-cases (answer a) = inr (a, refl)
