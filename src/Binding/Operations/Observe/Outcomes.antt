-- ===== src/Binding/Operations/Observe/Outcomes.antt =====
-- What an observation of a binding may ask for.
use provider_osb.Base.{Bool, true, ◌≡◌, ◌≢◌, refl, ap, ◌∙◌, Option, none, some, arith}
use provider_osb.Errors.{Error}
use provider_osb.Common.{Action, nothing_to_do, need_to_create, need_to_update}
use provider_osb.Osb.{
  OriginatingIdentity, LastOperationResponse, GetBindingResponse, Reply, answer, failure,
}
use provider_osb.Platform.{Platform, World}
use provider_osb.Exec.{Session, ok, ◌>>=◌}
use provider_osb.Exec.Ensures.{
  Ensures, Ensures-pure, Ensures-raise, Ensures-crash, Ensures-wrapping, Ensures-if, Ensures-bind,
  Ensures-then,
}
use provider_osb.Util.{Credentials}
use provider_osb.Binding.{ServiceBinding}
use provider_osb.Binding.Renewal.{BindingAction, rotate_binding, handle_renewal_bindings}
use provider_osb.Binding.Renewal.Decision.{rotates_iff}
use provider_osb.Binding.Operations.Observe.{
  observe_state, observe_external, observe_response, observe_operation, after_renewal, after_get,
  handle_last_operation_in_progress, handle_poll_error, after_handled, after_poll,
}

module _ (P : Platform) (w : World P (ServiceBinding P)) where
  -- An update is asked for only by a rotation; a resource to create has no credentials.
  abbrev pub IsAllowed : Bool → Action × Credentials → Type 0
  IsAllowed rotate (need_to_update, creds) = rotate ≡ true
  IsAllowed rotate (need_to_create, creds) = creds ≡ none
  IsAllowed rotate (nothing_to_do, creds) = Unit

  Rotates : Bool → BindingAction → Type 0
  Rotates rotate a = a ≡ rotate_binding → rotate ≡ true

  handle_renewal_bindings-Rotates :
      (rotate : Bool) (resp : GetBindingResponse P.Endpoints P.VolumeMounts)
      → Ensures (Rotates rotate) (handle_renewal_bindings P w (some resp) rotate)
  unfolding Rotates
  handle_renewal_bindings-Rotates rotate resp = record {
    at = λ s a e d. ((rotates_iff P w resp rotate s).0 (e ∙ ap ok d)).0;
  }

  after_renewal-IsAllowed :
      (rotate : Bool) (creds : Credentials) (a : BindingAction)
      → Rotates rotate a
      → Ensures (IsAllowed rotate) (after_renewal P w creds a)
  unfolding ◌>>=◌ after_renewal Rotates
  after_renewal-IsAllowed rotate creds a h = record { at = λ s r e. ground arith }

  observe_response-IsAllowed :
      (rotate : Bool) (resp : GetBindingResponse P.Endpoints P.VolumeMounts)
      → Ensures (IsAllowed rotate) (observe_response P w rotate resp)
  unfolding observe_response
  observe_response-IsAllowed rotate resp = Ensures-then _ _ (λ _. Ensures-then _ _ (λ creds.
      Ensures-bind _ _ (Ensures-wrapping _ _ (handle_renewal_bindings-Rotates rotate resp))
        (after_renewal-IsAllowed rotate creds)))

  after_get-IsAllowed :
      (rotate : Bool) (reply : Reply (GetBindingResponse P.Endpoints P.VolumeMounts))
      → Ensures (IsAllowed rotate) (after_get P w rotate reply)
  unfolding after_get
  after_get-IsAllowed rotate (failure e) = Ensures-if _ _ _ (Ensures-pure _ refl) (Ensures-raise _)
  after_get-IsAllowed rotate (answer none) = Ensures-crash
  after_get-IsAllowed rotate (answer (some resp)) = observe_response-IsAllowed rotate resp

  observe_external-IsAllowed :
      (rotate : Bool) → Ensures (IsAllowed rotate) (observe_external P w rotate)
  unfolding observe_external
  observe_external-IsAllowed rotate =
      Ensures-then _ _ (λ _. Ensures-then _ _ (λ _. Ensures-then _ _ (after_get-IsAllowed rotate)))

  -- A poll never asks for an update.
  IsPolled : Action → Type 0
  IsPolled a = a ≢ need_to_update

  handle_poll_error-value :
      (e : Error) → Ensures (λ handled. handled ≢ some need_to_update) (handle_poll_error P w e)
  unfolding handle_poll_error
  handle_poll_error-value e = Ensures-then _ _ (λ _.
      Ensures-if _ _ _ (Ensures-then _ _ (λ _. Ensures-pure _ (λ d. ground arith)))
        (Ensures-pure _ (λ d. ground arith)))

  after_handled-IsPolled :
      (e : Error) (handled : Option Action)
      → handled ≢ some need_to_update
      → Ensures IsPolled (after_handled P w e handled)
  unfolding after_handled IsPolled
  after_handled-IsPolled e none h = Ensures-raise _
  after_handled-IsPolled e (some action) h = Ensures-pure _ (λ d. h (ap some d))

  after_poll-IsPolled :
      (reply : Reply LastOperationResponse) → Ensures IsPolled (after_poll P w reply)
  unfolding after_poll IsPolled
  after_poll-IsPolled (failure e) =
      Ensures-bind _ _ (handle_poll_error-value e) (after_handled-IsPolled e)
  after_poll-IsPolled (answer none) = Ensures-then _ _ (λ _. Ensures-crash)
  after_poll-IsPolled (answer (some r)) =
      Ensures-then _ _ (λ _. Ensures-then _ _ (λ _. Ensures-pure _ (λ d. ground arith)))

  IsPolled-IsAllowed : (rotate : Bool) (a : Action) → IsPolled a → IsAllowed rotate (a, none)
  unfolding IsPolled
  IsPolled-IsAllowed rotate nothing_to_do h = tt
  IsPolled-IsAllowed rotate need_to_create h = refl
  IsPolled-IsAllowed rotate need_to_update h = absurd (h refl)

  observe_operation-IsAllowed :
      (rotate : Bool) (oid : OriginatingIdentity)
      → Ensures (IsAllowed rotate) (observe_operation P w oid)
  unfolding observe_operation handle_last_operation_in_progress IsPolled
  observe_operation-IsAllowed rotate oid =
      Ensures-bind _ _
        (Ensures-then _ _ (λ _. Ensures-then _ _ (λ _. Ensures-then _ _ (after_poll-IsPolled))))
        (λ a polled. Ensures-pure _ (IsPolled-IsAllowed rotate a polled))

  observe_state-Ensures :
      (rotate : Bool) (oid : OriginatingIdentity)
      → Ensures (IsAllowed rotate) (observe_state P w rotate oid)
  unfolding observe_state
  observe_state-Ensures rotate oid = Ensures-then _ _ (λ _.
      Ensures-if _ _ _ (observe_operation-IsAllowed rotate oid)
        (Ensures-if _ _ _ (Ensures-pure _ refl) (observe_external-IsAllowed rotate)))

  -- An observation of a binding that returns asks for an update only if rotation is switched on,
  -- and an observation that asks for a resource to be created has no credentials.
  pub observe_state-IsAllowed :
      (rotate : Bool) (oid : OriginatingIdentity) (s : Session (ServiceBinding P))
      (observed : Action × Credentials)
      → (observe_state P w rotate oid s).0 ≡ ok observed
      → IsAllowed rotate observed
  observe_state-IsAllowed rotate oid s observed e =
      (observe_state-Ensures rotate oid).at s observed e
