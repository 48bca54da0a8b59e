-- ===== src/Binding/Operations/Observe/Bounds.antt =====
-- How many calls the observation of a binding makes.
use provider_osb.Base.{Bool, ◌&&◌, Option, none, some}
use provider_osb.Errors.{Error, Fallible, done, fail}
use provider_osb.Osb.{
  OriginatingIdentity, LastOperationResponse, GetBindingResponse, Reply, answer, failure,
}
use provider_osb.Common.{Action}
use provider_osb.Platform.{Platform, World}
use provider_osb.Exec.{modify, raise}
use provider_osb.Exec.AtMost.{
  AtMost, AtMost-pure, AtMost-raise, AtMost-crash, AtMost-wrapping, AtMost-if, AtMost-modify,
  AtMost-kube_call, AtMost-bind, AtMost-gets_bind, AtMost-lift_bind, AtMost-ask_bind,
}
use provider_osb.Util.{Credentials, is_resource_gone, remove_finalizer_if_exists}
use provider_osb.Util.Kube.{get_latest_kube_object}
use provider_osb.Util.Kube.Bounds.{handle_finalizer-AtMost}
use provider_osb.Binding.{
  ServiceBinding, meta_of, async_deletion_finalizer, is_state_in_progress, is_external_name_empty,
}
use provider_osb.Binding.Renewal.{BindingAction}
use provider_osb.Binding.Renewal.Bounds.{handle_renewal_bindings-AtMost}
use provider_osb.Binding.Operations.Observe.{
  handle_poll_error, after_handled, after_poll, handle_last_operation_in_progress, change,
  compare_parameters, after_renewal, observe_response, after_get, observe_external,
  observe_operation, observe_state,
}

module _ (P : Platform) (w : World P (ServiceBinding P)) where
  handle_poll_error-AtMost : (e : Error) → AtMost 1 (handle_poll_error P w e)
  unfolding handle_poll_error
  handle_poll_error-AtMost e = AtMost-gets_bind 1 _ _ λ sb.
      AtMost-if 1 (is_resource_gone e && P.was_deleted sb.meta) _ _
        (AtMost-bind 1 0 _ _
          (AtMost-wrapping 1 _ _ (
            handle_finalizer-AtMost P w (meta_of P) async_deletion_finalizer
              (remove_finalizer_if_exists P)))
          (λ _. AtMost-pure 0 _))
        (AtMost-pure 1 _)

  after_handled-AtMost : (e : Error) (a : Option Action) → AtMost 0 (after_handled P w e a)
  unfolding after_handled
  after_handled-AtMost e none = AtMost-raise 0 _
  after_handled-AtMost e (some a) = AtMost-pure 0 a

  after_poll-AtMost : (reply : Reply LastOperationResponse) → AtMost 1 (after_poll P w reply)
  unfolding after_poll get_latest_kube_object
  after_poll-AtMost (failure e) =
      AtMost-bind 1 0 _ _ (handle_poll_error-AtMost e) (after_handled-AtMost e)
  after_poll-AtMost (answer none) =
      AtMost-bind 1 0 _ _ (AtMost-wrapping 1 _ _ (AtMost-wrapping 1 _ _ (AtMost-kube_call 0 _ _)))
        (λ _. AtMost-crash 0)
  after_poll-AtMost (answer (some r)) =
      AtMost-bind 1 0 _ _ (AtMost-wrapping 1 _ _ (AtMost-wrapping 1 _ _ (AtMost-kube_call 0 _ _)))
        (λ _. AtMost-bind 0 0 _ _ (AtMost-modify 0 _) (λ _. AtMost-pure 0 _))

  handle_last_operation_in_progress-AtMost :
      (oid : OriginatingIdentity) → AtMost 2 (handle_last_operation_in_progress P w oid)
  unfolding handle_last_operation_in_progress
  handle_last_operation_in_progress-AtMost oid =
      AtMost-gets_bind 2 _ _
        λ sb. AtMost-lift_bind 2 _ _ λ req. AtMost-ask_bind 1 _ _ _ after_poll-AtMost

  change-AtMost : (f : ServiceBinding P → Fallible (ServiceBinding P)) → AtMost 0 (change P w f)
  change-AtMost f = AtMost-gets_bind 0 _ _ written-AtMost
    where
      written-AtMost :
          (r : Fallible (ServiceBinding P))
          → AtMost 0 (elim r [ done sb ↦ modify (λ _. sb) | fail e ↦ raise e ])
      written-AtMost (done sb) = AtMost-modify 0 _
      written-AtMost (fail e) = AtMost-raise 0 e

  compare_parameters-AtMost : (creds : Credentials) → AtMost 0 (compare_parameters P w creds)
  unfolding compare_parameters
  compare_parameters-AtMost creds = AtMost-gets_bind 0 _ _ λ sb.
      AtMost-lift_bind 0 _ _ λ differ. AtMost-if 0 differ _ _ (AtMost-raise 0 _) (AtMost-pure 0 _)

  after_renewal-AtMost :
      (creds : Credentials) (a : BindingAction) → AtMost 0 (after_renewal P w creds a)
  unfolding after_renewal
  after_renewal-AtMost creds BindingAction.renewal_data = AtMost-pure 0 _
  after_renewal-AtMost creds BindingAction.rotate_binding = AtMost-pure 0 _
  after_renewal-AtMost creds BindingAction.nothing_to_do = compare_parameters-AtMost creds

  observe_response-AtMost :
      (rotate : Bool) (resp : GetBindingResponse P.Endpoints P.VolumeMounts)
      → AtMost 2 (observe_response P w rotate resp)
  unfolding observe_response
  observe_response-AtMost rotate resp =
      AtMost-bind 0 2 _ _ (AtMost-wrapping 0 _ _ (change-AtMost _)) λ _.
        AtMost-lift_bind 2 _ _ λ creds.
          AtMost-bind 2 0 _ _
            (AtMost-wrapping 2 _ _ (handle_renewal_bindings-AtMost P w resp rotate))
            (after_renewal-AtMost creds)

  after_get-AtMost :
      (rotate : Bool) (reply : Reply (GetBindingResponse P.Endpoints P.VolumeMounts))
      → AtMost 2 (after_get P w rotate reply)
  unfolding after_get
  after_get-AtMost rotate (failure e) =
      AtMost-if 2 (is_resource_gone e) _ _ (AtMost-pure 2 _) (AtMost-raise 2 _)
  after_get-AtMost rotate (answer none) = AtMost-crash 2
  after_get-AtMost rotate (answer (some resp)) = observe_response-AtMost rotate resp

  observe_external-AtMost : (rotate : Bool) → AtMost 3 (observe_external P w rotate)
  unfolding observe_external
  observe_external-AtMost rotate =
      AtMost-gets_bind 3 _ _
        λ sb. AtMost-lift_bind 3 _ _ λ req. AtMost-ask_bind 2 _ _ _ (after_get-AtMost rotate)

  pub observe_state-AtMost :
      (rotate : Bool) (oid : OriginatingIdentity) → AtMost 3 (observe_state P w rotate oid)
  unfolding observe_state observe_operation
  observe_state-AtMost rotate oid = AtMost-gets_bind 3 _ _ λ sb.
      AtMost-if 3 (is_state_in_progress P sb) _ _
        (AtMost-bind 2 1 _ _ (handle_last_operation_in_progress-AtMost oid) (λ _. AtMost-pure 1 _))
        (AtMost-if 3 (is_external_name_empty P sb) _ _ (AtMost-pure 3 _)
          (observe_external-AtMost rotate))
