-- ===== src/Instance/Operations/Bounds.antt =====
-- How many calls of the broker and of Kubernetes an operation of an instance makes.
use provider_osb.Base.{Bool, none, some}
use provider_osb.Errors.{InstanceError}
use provider_osb.Osb.{
  OriginatingIdentity, AsyncResponse, DeprovisionResponse, LastOperationResponse,
  GetInstanceResponse, Reply, answer, failure,
}
use provider_osb.Platform.{Platform, World}
use provider_osb.Exec.AtMost.{
  AtMost, AtMost-pure, AtMost-raise, AtMost-crash, AtMost-wrapping, AtMost-if, AtMost-modify,
  AtMost-kube_call, AtMost-bind, AtMost-gets_bind, AtMost-lift_bind, AtMost-ask_bind,
}
use provider_osb.Util.{is_resource_gone}
use provider_osb.Util.Kube.{get_latest_kube_object}
use provider_osb.Instance.{
  ServiceInstance, is_instance_id_empty, is_already_deleted, has_active_bindings,
  has_last_operation,
}
use provider_osb.Instance.Operations.{
  save_status, after_osb, after_deprovision, after_poll, provision, update, deprovision,
  request_deprovision, handle_last_operation_in_progress, handle_deletion_with_active_bindings,
  observe_external, observe_operation, observe_deletion, after_get, observe_state,
}

module _ (P : Platform) (w : World P (ServiceInstance P)) where
  save_status-AtMost : AtMost 1 (save_status P w)
  save_status-AtMost = AtMost-wrapping 1 _ _ (AtMost-kube_call 0 _ _)

  after_osb-AtMost :
      (e : InstanceError) (reply : Reply AsyncResponse) → AtMost 1 (after_osb P w e reply)
  unfolding after_osb
  after_osb-AtMost e (failure cause) = AtMost-raise 1 _
  after_osb-AtMost e (answer none) = AtMost-crash 1
  after_osb-AtMost e (answer (some resp)) =
      AtMost-bind 0 1 _ _ (AtMost-modify 0 _) (λ _. save_status-AtMost)

  pub provision-AtMost : (disable_async : Bool) → AtMost 2 (provision P w disable_async)
  unfolding provision
  provision-AtMost disable_async = AtMost-gets_bind 2 _ _ λ si. AtMost-lift_bind 2 _ _ λ params.
      AtMost-lift_bind 2 _ _
        λ ctx_map. AtMost-lift_bind 2 _ _ λ req. AtMost-ask_bind 1 _ _ _ (after_osb-AtMost _)

  pub update-AtMost :
      (oid : OriginatingIdentity) (disable_async : Bool) → AtMost 2 (update P w oid disable_async)
  unfolding update
  update-AtMost oid disable_async =
      AtMost-gets_bind 2 _ _
        λ si. AtMost-lift_bind 2 _ _ λ req. AtMost-ask_bind 1 _ _ _ (after_osb-AtMost _)

  after_deprovision-AtMost :
      (reply : Reply DeprovisionResponse) → AtMost 1 (after_deprovision P w reply)
  unfolding after_deprovision
  after_deprovision-AtMost (failure e) =
      AtMost-if 1 (is_resource_gone e) _ _ (AtMost-pure 1 _) (AtMost-raise 1 _)
  after_deprovision-AtMost (answer none) = AtMost-crash 1
  after_deprovision-AtMost (answer (some resp)) =
      AtMost-if 1 resp.async _ _ (AtMost-bind 0 1 _ _ (AtMost-modify 0 _) (λ _. save_status-AtMost))
        (AtMost-pure 1 _)

  request_deprovision-AtMost :
      (oid : OriginatingIdentity) (disable_async : Bool)
      → AtMost 2 (request_deprovision P w oid disable_async)
  unfolding request_deprovision
  request_deprovision-AtMost oid disable_async =
      AtMost-gets_bind 2 _ _
        λ si. AtMost-lift_bind 2 _ _ λ req. AtMost-ask_bind 1 _ _ _ after_deprovision-AtMost

  pub deprovision-AtMost :
      (oid : OriginatingIdentity) (disable_async : Bool)
      → AtMost 2 (deprovision P w oid disable_async)
  unfolding deprovision
  deprovision-AtMost oid disable_async = AtMost-gets_bind 2 _ _ λ si.
      AtMost-if 2 (is_instance_id_empty P si) _ _ (AtMost-pure 2 _) (
        AtMost-if 2 (is_already_deleted P si) _ _ (AtMost-pure 2 _) (
          AtMost-if 2 (has_active_bindings P si) _ _ (AtMost-raise 2 _)
            (request_deprovision-AtMost oid disable_async)))

  after_poll-AtMost : (reply : Reply LastOperationResponse) → AtMost 2 (after_poll P w reply)
  unfolding after_poll get_latest_kube_object
  after_poll-AtMost (failure e) =
      AtMost-if 2 (is_resource_gone e) _ _ (AtMost-pure 2 _) (AtMost-raise 2 _)
  after_poll-AtMost (answer none) =
      AtMost-bind 1 1 _ _ (AtMost-wrapping 1 _ _ (AtMost-wrapping 1 _ _ (AtMost-kube_call 0 _ _)))
        (λ _. AtMost-crash 1)
  after_poll-AtMost (answer (some r)) =
      AtMost-bind 1 1 _ _ (AtMost-wrapping 1 _ _ (AtMost-wrapping 1 _ _ (AtMost-kube_call 0 _ _)))
        (λ _. AtMost-bind 0 1 _ _ (AtMost-modify 0 _) (λ _. AtMost-gets_bind 1 _ _ λ deletable.
          AtMost-if 1 deletable _ _ (AtMost-pure 1 _)
            (AtMost-bind 1 0 _ _ save_status-AtMost (λ _. AtMost-pure 0 _))))

  handle_last_operation_in_progress-AtMost :
      (oid : OriginatingIdentity) → AtMost 3 (handle_last_operation_in_progress P w oid)
  unfolding handle_last_operation_in_progress
  handle_last_operation_in_progress-AtMost oid =
      AtMost-gets_bind 3 _ _
        λ si. AtMost-lift_bind 3 _ _ λ req. AtMost-ask_bind 2 _ _ _ after_poll-AtMost

  after_get-AtMost : (reply : Reply GetInstanceResponse) → AtMost 2 (after_get P w reply)
  unfolding after_get
  after_get-AtMost (failure e) =
      AtMost-if 2 (is_resource_gone e) _ _ (AtMost-pure 2 _) (AtMost-raise 2 _)
  after_get-AtMost (answer r) =
      AtMost-gets_bind 2 _ _ λ si. AtMost-lift_bind 2 _ _ λ action. AtMost-pure 2 _

  observe_external-AtMost : AtMost 3 (observe_external P w)
  unfolding observe_external
  observe_external-AtMost =
      AtMost-gets_bind 3 _ _
        λ si. AtMost-lift_bind 3 _ _ λ req. AtMost-ask_bind 2 _ _ _ after_get-AtMost

  pub observe_state-AtMost : (oid : OriginatingIdentity) → AtMost 3 (observe_state P w oid)
  unfolding observe_state observe_operation observe_deletion handle_deletion_with_active_bindings
  observe_state-AtMost oid = AtMost-gets_bind 3 _ _ λ si.
      AtMost-if 3 (has_last_operation P si) _ _
        (AtMost-bind 3 0 _ _ (AtMost-wrapping 3 _ _ (handle_last_operation_in_progress-AtMost oid))
          (λ _. AtMost-pure 0 _))
        (AtMost-if 3 (P.was_deleted si.meta) _ _
          (AtMost-bind 1 2 _ _ (AtMost-wrapping 1 _ _ save_status-AtMost) (λ _. AtMost-pure 2 _))
          observe_external-AtMost)
