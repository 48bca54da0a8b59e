-- ===== src/Controller/Binding/Polling.antt =====
-- Observations of a binding whose operation takes its time.
use Prim.Native.Nat.{◌*◌}
use provider_osb.Base.{
  ℕ, zero, suc, ◌+◌, ◌≤◌, List, [], ◌∷◌, true, ◌≡◌, ◌⊎◌, ◌∙◌, inl, inr, refl, none, some, arith,
  length,
}
use provider_osb.Osb.{
  BindingLastOperationRequest, LastOperationResponse, GetBindingResponse, LastOperationState,
  succeeded, in_progress, answer,
}
use provider_osb.Platform.{Platform, World}
use provider_osb.Platform.Laws.{ReadsBack}
use provider_osb.Exec.{Session, ok}
use provider_osb.Util.{Credentials}
use provider_osb.Binding.{ServiceBinding, is_state_in_progress}
use provider_osb.Controller.Binding.{External, observe}
use provider_osb.Controller.Binding.Readiness.{ready, observe-ready, Agrees, Reports}
use provider_osb.Controller.Binding.Runs.{Operation, observing, run, run_all}
use provider_osb.Controller.Binding.Waiting.{
  IsComplete, Polled, Polled-IsBound, Polled-IsComplete, observe-Polled,
}

-- The broker answers each poll, with success from call `N` on and before it with success or with an
-- operation in progress, and Kubernetes has the object that is asked for as it is.
pub record FinishesBy {P : Platform} (w : World P (ServiceBinding P)) (N : ℕ) : Type 0 where
  pub reply : ℕ → BindingLastOperationRequest → LastOperationResponse
  pub polled :
      (n : ℕ) (r : BindingLastOperationRequest)
      → w.poll_binding_last_operation n r ≡ answer (some (reply n r))
  pub works :
      (n : ℕ) (r : BindingLastOperationRequest)
      → ((reply n r).state ≡ succeeded) ⊎ ((reply n r).state ≡ in_progress)
  pub finished : (n : ℕ) (r : BindingLastOperationRequest) → N ≤ n → (reply n r).state ≡ succeeded
  pub got : (n : ℕ) (sb : ServiceBinding P) → w.kube_get n sb ≡ record { error = none; object = sb }

abbrev pub observations : ℕ → List Operation
observations zero = []
observations (suc k) = observing ∷ observations k

module _ (P : Platform) (w : World P (ServiceBinding P)) (c : External) (N : ℕ)
    (report : GetBindingResponse P.Endpoints P.VolumeMounts) (creds : Credentials) where
  -- What the observation after `j` others reports.
  unfoldable pub Reported : ℕ → Session (ServiceBinding P) → Credentials → Type 0
  Reported j s details = (observe P w c (run_all P w c (observations j) s)).0 ≡ ok (ready details)

  -- The first `m` observations and the one after them report no details: the next has them.
  pub record PublishesAfter (s : Session (ServiceBinding P)) (m : ℕ) : Type 0 where
    pub waiting : (j : ℕ) → j ≤ m → Reported j s none
    pub published : Reported (suc m) s creds

  waiting-suc :
      (s : Session (ServiceBinding P)) (m : ℕ)
      → (observe P w c s).0 ≡ ok (ready none)
      → PublishesAfter (observe P w c s).1 m
      → (j : ℕ) → j ≤ suc m
      → Reported j s none
  unfolding Reported run run_all
  waiting-suc s m first rest zero le = first
  waiting-suc s m first rest (suc j) le = rest.waiting j (omega arith)

  PublishesAfter-suc :
      (s : Session (ServiceBinding P)) (m : ℕ)
      → (observe P w c s).0 ≡ ok (ready none)
      → PublishesAfter (observe P w c s).1 m
      → PublishesAfter s (suc m)
  unfolding Reported run run_all
  PublishesAfter-suc s m first rest = record {
    waiting = waiting-suc s m first rest;
    published = rest.published;
  }

  waiting-zero :
      (s : Session (ServiceBinding P))
      → (observe P w c s).0 ≡ ok (ready none)
      → (j : ℕ) → j ≤ 0
      → Reported j s none
  unfolding Reported run run_all
  waiting-zero s first zero le = first
  waiting-zero s first (suc j) le = absurd (omega arith)

  PublishesAfter-zero :
      (s : Session (ServiceBinding P))
      → ReadsBack P
      → Reports P w report (P.get_external_name s.obj.meta)
      → Agrees w s.obj.for_provider.parameters report creds
      → IsComplete c.originating_identity s.obj
      → (observe P w c s).0 ≡ ok (ready none)
      → Polled P w c succeeded s (observe P w c s).1
      → PublishesAfter s 0
  unfolding Reported run run_all
  PublishesAfter-zero s reads reports agrees complete first polled =
      let t : Session (ServiceBinding P) = (observe P w c s).1 in
      record {
        waiting = waiting-zero s first;
        published =
            observe-ready P w c reads report creds t (Polled-IsBound P w c s t complete polled)
              (rw polled.meta reports) (rw polled.spec agrees);
      }

  Polled-as :
      {a b : LastOperationState} (s t : Session (ServiceBinding P))
      → a ≡ b
      → Polled P w c a s t
      → Polled P w c b s t
  Polled-as s t e polled = record {
    meta = polled.meta;
    spec = polled.spec;
    state = polled.state ∙ e;
    longer = polled.longer;
  }

  Polled-waits :
      (s t : Session (ServiceBinding P))
      → Polled P w c in_progress s t
      → is_state_in_progress P t.obj ≡ true
  unfolding is_state_in_progress
  Polled-waits s t polled = rw polled.state refl

  -- If JSON reads back what it wrote, the broker answers each poll with an operation in progress or
  -- with success, from some call on with success, and reports the binding with the parameters that the
  -- spec is read as and no time to renew that the clock reaches, and Kubernetes has the object that is
  -- asked for as it is, then a binding that waits, with all that a poll is asked with, waits no longer
  -- than so many observations that two calls for each of them reach that call: up to some observation
  -- each reports that the binding exists, without details, and the next one publishes the credentials.
  pub waiting_ends :
      (f : FinishesBy w N) (k : ℕ) (s : Session (ServiceBinding P))
      → ReadsBack P
      → Reports P w report (P.get_external_name s.obj.meta)
      → Agrees w s.obj.for_provider.parameters report creds
      → IsComplete c.originating_identity s.obj
      → is_state_in_progress P s.obj ≡ true
      → N ≤ length s.calls + 2 * k
      → (m : ℕ) × (m ≤ k) × PublishesAfter s m
  waiting_ends f zero s reads reports agrees complete waiting enough =
      let (seen, (q, polled)) =
        observe-Polled P w c s (f.reply (length s.calls)) (f.polled (length s.calls)) f.got complete
          waiting in
      let ended = f.finished (length s.calls) q (omega (arith, enough)) in
      let after = Polled-as s (observe P w c s).1 ended polled in
      (0, omega arith, PublishesAfter-zero s reads reports agrees complete seen after)
  waiting_ends f (suc k) s reads reports agrees complete waiting enough =
      let (seen, (q, polled)) =
        observe-Polled P w c s (f.reply (length s.calls)) (f.polled (length s.calls)) f.got complete
          waiting in
      let t : Session (ServiceBinding P) = (observe P w c s).1 in
      elim (f.works (length s.calls) q) [
        | inl ended ↦
            let after = Polled-as s t ended polled in
            (0, omega arith, PublishesAfter-zero s reads reports agrees complete seen after)
        | inr busy ↦
            let after = Polled-as s t busy polled in
            let longer = polled.longer in
            let (m, le, rest) =
              waiting_ends f k t reads (rw polled.meta reports) (rw polled.spec agrees)
                (Polled-IsComplete P w c s t complete after) (Polled-waits s t after)
                (omega (arith, enough, longer)) in
            (suc m, omega (arith, le), PublishesAfter-suc s m seen rest)
      ]
