-- ===== src/Binding/Operations/Observe.antt =====
-- The observation of a binding in apis/binding/v1alpha1/servicebinding_methods.go. `latest` in the
-- source is the object itself, read afresh.
pub mod Bounds
pub mod Naming
pub mod Outcomes
pub mod Panics
pub mod Published
use provider_osb.Base.{Bool, ◌&&◌, Option, none, some, if◌then◌else◌}
use provider_osb.Errors.{Error, sentinel, wrap, BindingError, of_binding, Fallible, done, fail}
use provider_osb.Common.{Action, need_to_create, need_to_update}
use provider_osb.Osb.{
  OriginatingIdentity, LastOperationResponse, GetBindingResponse, Reply, answer, failure,
}
use provider_osb.Platform.{Platform, World, Call}
use provider_osb.Exec.{Exec, pure, raise, crash, lift, gets, ask, modify, wrapping, ◌>>=◌, ◌>>◌}
use provider_osb.Util.{
  Credentials, is_resource_gone, update_status_from_last_op, remove_finalizer_if_exists,
  marshal_binding_credentials,
}
use provider_osb.Util.Kube.{handle_finalizer, get_latest_kube_object}
use provider_osb.Binding.{
  ServiceBinding, wrap_failure, meta_of, async_deletion_finalizer, last_operation_status_setter,
  is_state_in_progress, is_external_name_empty, update_binding_status_from_response,
  status_parameters_differ,
}
use provider_osb.Binding.Requests.{build_binding_last_operation_request, build_get_binding_request}
use provider_osb.Binding.Renewal.{BindingAction, handle_renewal_bindings}

module _ (P : Platform) (w : World P (ServiceBinding P)) where
  abbrev Method : Type 0 → Type 0
  Method A = Exec (ServiceBinding P) A

  abbrev Got : Type 0
  Got = GetBindingResponse P.Endpoints P.VolumeMounts

  -- `handlePollError`: `none` if the error was not handled.
  unfoldable pub handle_poll_error : Error → Method (Option Action)
  unfolding handle_finalizer remove_finalizer_if_exists
  handle_poll_error e = gets (λ o. o) >>= λ sb.
      if is_resource_gone e && P.was_deleted sb.meta
      then (wrapping (of_binding BindingError.technical_encountered) (
            handle_finalizer P w (meta_of P) async_deletion_finalizer
              (remove_finalizer_if_exists P))
          >> pure (some need_to_create))
      else pure none

  -- What follows `handlePollError`.
  unfoldable pub after_handled : Error → Option Action → Method Action
  after_handled e none =
      raise (wrap (of_binding BindingError.osb_poll_binding_last_operation_request_failed) e)
  after_handled e (some action) = pure action

  unfoldable pub after_poll : Reply LastOperationResponse → Method Action
  unfolding handle_poll_error after_handled update_status_from_last_op last_operation_status_setter
  after_poll (failure e) = handle_poll_error e >>= after_handled e
  after_poll (answer resp) =
      wrapping (of_binding BindingError.failed_to_get_lastest_kube_object)
        (get_latest_kube_object P w)
      >> elim resp [
        | none ↦ crash
        | some r ↦
            modify (update_status_from_last_op (last_operation_status_setter P) r)
            >> pure Action.nothing_to_do
      ]

  unfoldable pub handle_last_operation_in_progress : OriginatingIdentity → Method Action
  unfolding after_poll
  handle_last_operation_in_progress oid = do
    sb ← gets (λ o. o)
    req ← lift (
        wrap_failure BindingError.failed_to_build_binding_last_operation_request
          (build_binding_last_operation_request P sb oid))
    reply ← ask (Call.poll_binding_last_operation req) (λ n. w.poll_binding_last_operation n req)
    after_poll reply

  -- `*r = v` for the object, or the error.
  abbrev pub change : (ServiceBinding P → Fallible (ServiceBinding P)) → Method (Unit {0})
  change f = gets f >>= λ r. elim r [ done sb ↦ modify (λ _. sb) | fail e ↦ raise e ]

  -- The comparison at the end of `ObserveState`.
  compare_parameters : Credentials → Method (Action × Credentials)
  compare_parameters credentials_json = gets (λ o. o) >>= λ sb.
      lift (wrap_failure BindingError.status_spec_compare_failed (status_parameters_differ P sb))
      >>= λ differ.
          if differ
          then raise (sentinel (of_binding BindingError.status_spec_mismatch))
          else pure (Action.nothing_to_do, credentials_json)

  -- The switch of `ObserveState`.
  unfoldable pub after_renewal : Credentials → BindingAction → Method (Action × Credentials)
  unfolding compare_parameters
  after_renewal credentials_json BindingAction.renewal_data =
      pure (Action.nothing_to_do, credentials_json)
  after_renewal credentials_json BindingAction.rotate_binding =
      pure (need_to_update, credentials_json)
  after_renewal credentials_json BindingAction.nothing_to_do = compare_parameters credentials_json

  -- `ObserveState` from the response of `GetBinding` on.
  unfoldable pub observe_response : Bool → Got → Method (Action × Credentials)
  unfolding after_renewal
  observe_response rotate resp = do
    wrapping (of_binding BindingError.update_binding_status)
        (change (update_binding_status_from_response P resp))
    credentials_json ← lift (
        wrap_failure BindingError.marshal_credentials
          (marshal_binding_credentials P resp.credentials))
    action ←
        wrapping (of_binding BindingError.failed_to_handle_renewal_bindings)
          (handle_renewal_bindings P w (some resp) rotate)
    after_renewal credentials_json action

  unfoldable pub after_get : Bool → Reply Got → Method (Action × Credentials)
  after_get rotate (failure e) =
      if is_resource_gone e
      then pure (need_to_create, none)
      else raise (wrap (of_binding BindingError.osb_bind_request_failed) e)
  after_get rotate (answer none) = crash
  after_get rotate (answer (some resp)) = observe_response rotate resp

  -- The part of `ObserveState` that asks the broker for the binding.
  unfoldable pub observe_external : Bool → Method (Action × Credentials)
  observe_external rotate = do
    sb ← gets (λ o. o)
    req ← lift (
        wrap_failure BindingError.failed_to_build_get_binding_request
          (build_get_binding_request P sb))
    reply ← ask (Call.get_binding req) (λ n. w.get_binding n req)
    after_get rotate reply

  unfoldable pub observe_operation : OriginatingIdentity → Method (Action × Credentials)
  observe_operation oid = do action ← handle_last_operation_in_progress oid; pure (action, none)

  unfoldable pub observe_state : Bool → OriginatingIdentity → Method (Action × Credentials)
  unfolding is_state_in_progress is_external_name_empty observe_operation
  observe_state rotate oid = gets (λ o. o) >>= λ sb.
      if is_state_in_progress P sb
      then observe_operation oid
      else if is_external_name_empty P sb
      then pure (need_to_create, none)
      else observe_external rotate
