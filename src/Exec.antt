-- ===== src/Exec.antt =====
-- Methods with a pointer receiver: they change the object, call the outside world and return
-- `(A, error)`. What was written and called before an error stays, so the session comes back beside
-- the error too. A nil pointer that is dereferenced is a panic.
pub mod Rules
pub mod AtMost
pub mod Ensures
pub mod Inversion
pub mod Keeps
pub mod Leads
pub mod Survives
use provider_osb.Base.{ℕ, Option, none, some, List, ◌∷◌, length}
use provider_osb.Errors.{Error, wrap, Sentinel, Fallible, done, fail}
use provider_osb.Platform.{KubeReply, Call}

-- The object in memory, and the calls made so far, the last one first.
pub record Session (O : Type 0) : Type 0 where
  pub obj : O
  pub calls : List (Call O)

pub data Result (A : Type 0) : Type 0 where
  ok : A → Result A
  err : Error → Result A
  panic : Result A

abbrev pub Exec : Type 0 → Type 0 → Type 0
Exec O A = Session O → Result A × Session O

-- `if err != nil { return …, fmt.Errorf("%w: %s", e, fmt.Sprint(err)) }`
abbrev pub wrap_result : {A : Type 0} → Sentinel → Result A → Result A
wrap_result e (ok a) = ok a
wrap_result e (err cause) = err (wrap e cause)
wrap_result e panic = panic

module _ {O A : Type 0} where
  unfoldable pub pure : A → Exec O A
  pure a s = (ok a, s)

  unfoldable pub raise : Error → Exec O A
  raise e s = (err e, s)

  unfoldable pub crash : Exec O A
  crash s = (panic, s)

  unfoldable pub lift : Fallible A → Exec O A
  lift (done a) s = (ok a, s)
  lift (fail e) s = (err e, s)

  unfoldable pub gets : (O → A) → Exec O A
  gets f s = (ok (f s.obj), s)

  -- Reads through a pointer.
  unfoldable pub deref : Option A → Exec O A
  deref none s = (panic, s)
  deref (some a) s = (ok a, s)

  -- A call of the outside world, whose answer may depend on the number of calls before it.
  unfoldable pub ask : Call O → (ℕ → A) → Exec O A
  ask c f s = (ok (f (length s.calls)), record s { calls = c ∷ s.calls })

  unfoldable pub wrapping : Sentinel → Exec O A → Exec O A
  wrapping e m s = let (r, s') = m s in (wrap_result e r, s')

unfoldable pub modify : {O : Type 0} → (O → O) → Exec O (Unit {0})
modify f s = (ok tt, record s { obj = f s.obj })

abbrev pub kube_result : Option Error → Result (Unit {0})
kube_result none = ok tt
kube_result (some e) = err e

-- The Kubernetes client writes its answer into the object that it was given.
module _ {O : Type 0} where
  unfoldable pub kube_call : (ℕ → O → KubeReply O) → (O → Call O) → Exec O (Unit {0})
  kube_call answers call s =
      let r = answers (length s.calls) s.obj in
      (kube_result r.error, record { obj = r.object; calls = call s.obj ∷ s.calls })

module _ {O A B : Type 0} where
  abbrev pub continue : Result A → (A → Exec O B) → Exec O B
  continue (ok a) f s = f a s
  continue (err e) f s = (err e, s)
  continue panic f s = (panic, s)

  infixl 5 ◌>>=◌
  -- A proof that opens the sequence opens the steps too.
  unfoldable pub ◌>>=◌ : Exec O A → (A → Exec O B) → Exec O B
  unfolding pure raise crash lift gets deref ask wrapping modify kube_call
  ◌>>=◌ m f s = let (r, s') = m s in continue r f s'

infixl 5 ◌>>◌
abbrev pub ◌>>◌ : {O B : Type 0} → Exec O (Unit {0}) → Exec O B → Exec O B
m >> k = m >>= λ _. k
