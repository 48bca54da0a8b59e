-- ===== src/Binding/Operations/Observe/Panics.antt =====
-- Which nil pointers of the broker's client an observation of a binding survives.
use provider_osb.Base.{ℕ, Bool, ◌≢◌, refl, Option, none, some, arith}
use provider_osb.Errors.{Error, Fallible}
use provider_osb.Common.{Action}
use provider_osb.Osb.{
  OriginatingIdentity, BindingLastOperationRequest, GetBindingRequest, LastOperationResponse,
  GetBindingResponse, Reply, answer, failure,
}
use provider_osb.Platform.{Platform, World}
use provider_osb.Exec.{Session, panic, ◌>>=◌}
use provider_osb.Exec.Survives.{
  Survives, Survives-pure, Survives-raise, Survives-lift, Survives-gets, Survives-wrapping,
  Survives-if, Survives-modify, Survives-kube_call, Survives-bind, Survives-ask_bind,
}
use provider_osb.Util.{Credentials}
use provider_osb.Util.Kube.{get_latest_kube_object}
use provider_osb.Binding.{ServiceBinding}
use provider_osb.Binding.Renewal.{BindingAction, handle_renewal_bindings}
use provider_osb.Binding.Operations.Observe.{
  observe_state, observe_external, observe_response, observe_operation, after_renewal, after_get,
  handle_last_operation_in_progress, handle_poll_error, after_handled, after_poll, change,
}

module _ (P : Platform) (w : World P (ServiceBinding P)) where
  -- No reply to a poll or to a request for a binding has both a nil error and a nil response.
  pub record AnswersObserved : Type 0 where
    pub polls :
        (n : ℕ) (req : BindingLastOperationRequest)
        → w.poll_binding_last_operation n req ≢ answer none
    pub gets : (n : ℕ) (req : GetBindingRequest) → w.get_binding n req ≢ answer none

  handle_renewal_bindings-Survives :
      (rotate : Bool) (resp : GetBindingResponse P.Endpoints P.VolumeMounts)
      → Survives (handle_renewal_bindings P w (some resp) rotate)
  unfolding ◌>>=◌ handle_renewal_bindings
  handle_renewal_bindings-Survives rotate resp = record { at = λ s. ground arith }

  after_renewal-Survives :
      (creds : Credentials) (a : BindingAction) → Survives (after_renewal P w creds a)
  unfolding ◌>>=◌ after_renewal
  after_renewal-Survives creds a = record { at = λ s. ground arith }

  change-Survives : (f : ServiceBinding P → Fallible (ServiceBinding P)) → Survives (change P w f)
  unfolding ◌>>=◌
  change-Survives f = record { at = λ s. ground arith }

  observe_response-Survives :
      (rotate : Bool) (resp : GetBindingResponse P.Endpoints P.VolumeMounts)
      → Survives (observe_response P w rotate resp)
  unfolding observe_response
  observe_response-Survives rotate resp =
      Survives-bind _ _ (Survives-wrapping _ _ (change-Survives _)) (λ _.
        Survives-bind _ _ (Survives-lift _) (λ creds.
          Survives-bind _ _ (Survives-wrapping _ _ (handle_renewal_bindings-Survives rotate resp))
            (after_renewal-Survives creds)))

  after_get-Survives :
      (rotate : Bool) (reply : Reply (GetBindingResponse P.Endpoints P.VolumeMounts))
      → reply ≢ answer none
      → Survives (after_get P w rotate reply)
  unfolding after_get
  after_get-Survives rotate (failure e) h = Survives-if _ _ _ (Survives-pure _) (Survives-raise _)
  after_get-Survives rotate (answer none) h = absurd (h refl)
  after_get-Survives rotate (answer (some resp)) h = observe_response-Survives rotate resp

  handle_poll_error-Survives : (e : Error) → Survives (handle_poll_error P w e)
  unfolding ◌>>=◌ handle_poll_error
  handle_poll_error-Survives e = record { at = λ s. ground arith }

  after_handled-Survives :
      (e : Error) (handled : Option Action) → Survives (after_handled P w e handled)
  unfolding after_handled
  after_handled-Survives e none = Survives-raise _
  after_handled-Survives e (some action) = Survives-pure _

  after_poll-Survives :
      (reply : Reply LastOperationResponse) → reply ≢ answer none → Survives (after_poll P w reply)
  unfolding after_poll get_latest_kube_object
  after_poll-Survives (failure e) h =
      Survives-bind _ _ (handle_poll_error-Survives e) (after_handled-Survives e)
  after_poll-Survives (answer none) h = absurd (h refl)
  after_poll-Survives (answer (some r)) h =
      Survives-bind _ _ (Survives-wrapping _ _ (Survives-wrapping _ _ (Survives-kube_call _ _)))
        (λ _. Survives-bind _ _ (Survives-modify _) (λ _. Survives-pure _))

  observe_state-Survives :
      AnswersObserved
      → (rotate : Bool) (oid : OriginatingIdentity) → Survives (observe_state P w rotate oid)
  unfolding observe_state observe_operation observe_external handle_last_operation_in_progress
  observe_state-Survives h rotate oid = Survives-bind _ _ (Survives-gets _) (λ sb.
      Survives-if _ _ _
        (Survives-bind _ _
          (Survives-bind _ _ (Survives-gets _) (λ _.
            Survives-bind _ _ (Survives-lift _)
              (λ req. Survives-ask_bind _ _ _ (λ n. after_poll-Survives _ (h.polls n req)))))
          (λ _. Survives-pure _))
        (Survives-if _ _ _ (Survives-pure _) (
          Survives-bind _ _ (Survives-gets _) (λ _.
            Survives-bind _ _ (Survives-lift _)
              (λ req. Survives-ask_bind _ _ _ (λ n. after_get-Survives rotate _ (h.gets n req)))))))

  -- If each poll and each request for a binding that the broker's client answers without an error
  -- comes with a response, the observation of a binding never dereferences a nil pointer.
  pub observe_state-ne-panic :
      AnswersObserved
      → (rotate : Bool) (oid : OriginatingIdentity) (s : Session (ServiceBinding P))
      → (observe_state P w rotate oid s).0 ≢ panic
  observe_state-ne-panic h rotate oid s = (observe_state-Survives h rotate oid).at s
