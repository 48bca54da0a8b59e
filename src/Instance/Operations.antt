-- ===== src/Instance/Operations.antt =====
-- The operations of apis/instance/v1alpha1/serviceinstance_methods.go on the broker and on
-- Kubernetes. `latest` in the source is the object itself, read afresh, so what is written to it is
-- written to the receiver.
pub mod Bounds
pub mod Comparison
pub mod Contexts
pub mod Deletion
pub mod Panics
pub mod Polling
pub mod PollOnly
pub mod Refines
pub mod Saving
pub mod Settled
pub mod StickyKey
use provider_osb.Base.{Bool, ◌&&◌, Option, none, some, is_empty, if◌then◌else◌}
use provider_osb.Errors.{sentinel, wrap, InstanceError, of_instance, Fallible, done, fail}
use provider_osb.Json.{deep_equal_maps}
use provider_osb.Common.{Action, nothing_to_do, need_to_create, need_to_update, contexts_equal}
use provider_osb.Common.Serial.{to_parameters, to_map}
use provider_osb.Osb.{
  OriginatingIdentity, AsyncResponse, DeprovisionResponse, LastOperationResponse,
  GetInstanceResponse, Reply, answer, failure,
}
use provider_osb.Platform.{Platform, World, Call}
use provider_osb.Exec.{Exec, pure, raise, crash, lift, gets, ask, modify, wrapping, ◌>>=◌, ◌>>◌}
use provider_osb.Util.{is_resource_gone, update_status_from_last_op}
use provider_osb.Util.Kube.{get_latest_kube_object, kube_status_update}
use provider_osb.Instance.{
  ServiceInstance, is_instance_id_empty, is_already_deleted, has_active_bindings, has_plan_id,
  is_plan_id_different, has_last_operation, is_deletable, update_status_from_osb,
  update_status_for_async_deletion, last_operation_status_setter,
}
use provider_osb.Instance.Requests.{
  wrap_failure, build_provision_request, build_update_instance_request,
  build_poll_last_operation_request, build_deprovision_request, build_get_instance_request,
}

module _ (P : Platform) where
  -- `compareParametersWithOSB`; a text has no bytes exactly if it is "".
  unfoldable pub compare_parameters_with_osb :
      ServiceInstance P → GetInstanceResponse → Fallible Action
  unfolding to_parameters
  compare_parameters_with_osb si osb_instance =
      if is_empty si.for_provider.parameters
      then done need_to_update
      else elim (wrap_failure InstanceError.failed_to_parse_service_instance_parameters
          (to_parameters P si.for_provider.parameters)) [
            | fail e ↦ fail e
            | done params ↦
                if deep_equal_maps params osb_instance.parameters
                then done nothing_to_do
                else done need_to_update
          ]

  compare_context : ServiceInstance P → Fallible Action
  compare_context si =
      if contexts_equal si.for_provider.context si.at_provider.context
      then done nothing_to_do
      else done need_to_update

  -- What follows the call of `compareParametersWithOSB`.
  after_parameters : ServiceInstance P → Fallible Action → Fallible Action
  after_parameters si (fail e) = fail e
  after_parameters si (done need_to_update) = done need_to_update
  after_parameters si (done need_to_create) = compare_context si
  after_parameters si (done nothing_to_do) = compare_context si

  unfoldable pub compare_spec_with_osb :
      ServiceInstance P → Option GetInstanceResponse → Fallible Action
  unfolding has_plan_id is_plan_id_different compare_parameters_with_osb compare_context
      after_parameters
  compare_spec_with_osb si none = done nothing_to_do
  compare_spec_with_osb si (some osb_instance) =
      if has_plan_id P si && is_plan_id_different P si osb_instance.plan_id
      then done nothing_to_do
      else after_parameters si (compare_parameters_with_osb si osb_instance)

module _ (P : Platform) (w : World P (ServiceInstance P)) where
  abbrev Method : Type 0 → Type 0
  Method A = Exec (ServiceInstance P) A

  -- `kube.Status().Update`, and the error that every caller wraps it in.
  abbrev pub save_status : Method (Unit {0})
  save_status =
      wrapping (of_instance InstanceError.cannot_update_service_instance_status)
        (kube_status_update P w)

  after_deprovision : Reply DeprovisionResponse → Method (Unit {0})
  after_deprovision (failure e) =
      if is_resource_gone e
      then pure tt
      else raise (wrap (of_instance InstanceError.osb_deprovision_instance_failed) e)
  after_deprovision (answer none) = crash
  after_deprovision (answer (some resp)) =
      if resp.async
      then modify (update_status_for_async_deletion P resp) >> save_status
      else pure tt

  -- The part of `Deprovision` below the early returns.
  unfoldable pub request_deprovision : OriginatingIdentity → Bool → Method (Unit {0})
  unfolding after_deprovision
  request_deprovision oid disable_async = do
    si ← gets (λ o. o)
    req ← lift (
        wrap_failure InstanceError.failed_to_build_deprovision_request
          (build_deprovision_request P si oid disable_async))
    reply ← ask (Call.deprovision_instance req) (λ n. w.deprovision_instance n req)
    after_deprovision reply

  unfoldable pub deprovision : OriginatingIdentity → Bool → Method (Unit {0})
  unfolding is_instance_id_empty is_already_deleted has_active_bindings
  deprovision oid disable_async = gets (λ o. o) >>= λ si.
      if is_instance_id_empty P si
      then pure tt
      else if is_already_deleted P si
      then pure tt
      else if has_active_bindings P si
      then raise (sentinel (of_instance InstanceError.cannot_delete_with_active_bindings))
      else request_deprovision oid disable_async

  after_poll : Reply LastOperationResponse → Method Action
  unfolding update_status_from_last_op last_operation_status_setter
  after_poll (failure e) =
      if is_resource_gone e
      then pure need_to_create
      else raise (wrap (of_instance InstanceError.osb_poll_last_operation_failed) e)
  after_poll (answer resp) = do
    wrapping (of_instance InstanceError.failed_to_get_lastest_kube_object)
        (get_latest_kube_object P w)
    elim resp [
      | none ↦ crash
      | some r ↦ do
        modify (update_status_from_last_op (last_operation_status_setter P) r)
        deletable ← gets (is_deletable P)
        if deletable then pure need_to_create else (save_status >> pure nothing_to_do)
    ]

  unfoldable pub handle_last_operation_in_progress : OriginatingIdentity → Method Action
  unfolding after_poll
  handle_last_operation_in_progress oid = do
    si ← gets (λ o. o)
    req ← lift (
        wrap_failure InstanceError.failed_to_build_poll_last_operation_request
          (build_poll_last_operation_request P si oid))
    reply ← ask (Call.poll_last_operation req) (λ n. w.poll_last_operation n req)
    after_poll reply

  unfoldable pub handle_deletion_with_active_bindings : Method (Unit {0})
  handle_deletion_with_active_bindings = save_status

  after_osb : InstanceError → Reply AsyncResponse → Method (Unit {0})
  after_osb e (failure cause) = raise (wrap (of_instance e) cause)
  after_osb e (answer none) = crash
  after_osb e (answer (some resp)) = modify (update_status_from_osb P resp) >> save_status

  unfoldable pub provision : Bool → Method (Unit {0})
  unfolding after_osb to_parameters to_map
  provision disable_async = do
    si ← gets (λ o. o)
    params ← lift (
        wrap_failure InstanceError.parse_parameters_failed
          (to_parameters P si.for_provider.parameters))
    ctx_map ←
        lift (wrap_failure InstanceError.parse_context_failed (to_map P si.for_provider.context))
    req ← lift (
        wrap_failure InstanceError.failed_to_build_provision_request
          (build_provision_request P si params ctx_map disable_async))
    reply ← ask (Call.provision_instance req) (λ n. w.provision_instance n req)
    after_osb InstanceError.osb_provision_instance_failed reply

  unfoldable pub update : OriginatingIdentity → Bool → Method (Unit {0})
  unfolding after_osb
  update oid disable_async = do
    si ← gets (λ o. o)
    req ← lift (
        wrap_failure InstanceError.cannot_build_update_request
          (build_update_instance_request P si oid disable_async))
    reply ← ask (Call.update_instance req) (λ n. w.update_instance n req)
    after_osb InstanceError.osb_update_instance_failed reply

  after_get : Reply GetInstanceResponse → Method (Action × Option GetInstanceResponse)
  after_get (failure e) =
      if is_resource_gone e
      then pure (need_to_create, none)
      else raise (wrap (of_instance InstanceError.osb_get_instance) e)
  after_get (answer osb_instance) = do
    si ← gets (λ o. o)
    action ← lift (
        wrap_failure InstanceError.failed_to_compare_spec_with_osb
          (compare_spec_with_osb P si osb_instance))
    pure (action, osb_instance)

  -- The part of `ObserveState` below the two early returns.
  unfoldable pub observe_external : Method (Action × Option GetInstanceResponse)
  unfolding after_get
  observe_external = do
    si ← gets (λ o. o)
    req ← lift (
        wrap_failure InstanceError.failed_to_build_get_instance_request
          (build_get_instance_request P si))
    reply ← ask (Call.get_instance req) (λ n. w.get_instance n req)
    after_get reply

  -- The two early returns of `ObserveState`.
  observe_operation : OriginatingIdentity → Method (Action × Option GetInstanceResponse)
  observe_operation oid = do
    action ←
        wrapping (of_instance InstanceError.failed_to_handle_last_operation_in_progress)
          (handle_last_operation_in_progress oid)
    pure (action, none)

  observe_deletion : Method (Action × Option GetInstanceResponse)
  observe_deletion = do
    wrapping (of_instance InstanceError.failed_to_handle_deletion_with_active_bindings)
        handle_deletion_with_active_bindings
    pure (need_to_create, none)

  unfoldable pub observe_state : OriginatingIdentity → Method (Action × Option GetInstanceResponse)
  unfolding observe_operation observe_deletion
  observe_state oid = gets (λ o. o) >>= λ si.
      if has_last_operation P si
      then observe_operation oid
      else if P.was_deleted si.meta
      then observe_deletion
      else observe_external
