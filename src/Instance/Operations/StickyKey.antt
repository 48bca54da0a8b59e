-- ===== src/Instance/Operations/StickyKey.antt =====
-- The key of the last operation, once set, is never cleared.
use provider_osb.Base.{ℕ, Bool, ◌≡◌, ◌≢◌, refl, none, some, arith}
use provider_osb.Errors.{InstanceError}
use provider_osb.Osb.{
  OriginatingIdentity, ProvisionRequest, UpdateInstanceRequest, DeprovisionRequest, AsyncResponse,
  DeprovisionResponse, GetInstanceResponse, LastOperationResponse, Reply, answer, failure,
}
use provider_osb.Platform.{Platform, World}
use provider_osb.Exec.Keeps.{
  Keeps, Keeps-pure, Keeps-raise, Keeps-crash, Keeps-lift, Keeps-bind, Keeps-wrapping, Keeps-modify,
  Keeps-gets, Keeps-gets-bind, Keeps-ask-bind, Keeps-kube_call, Keeps-if, keeps_rules,
}
use provider_osb.Util.{update_status_from_last_op}
use provider_osb.Util.Kube.{get_latest_kube_object}
use provider_osb.Instance.{
  ServiceInstance, is_instance_id_empty, is_already_deleted, has_active_bindings,
  has_last_operation, update_status_from_osb, update_status_for_async_deletion,
  last_operation_status_setter,
}
use provider_osb.Instance.Operations.{
  save_status, after_osb, after_deprovision, after_poll, provision, update, deprovision,
  request_deprovision, handle_last_operation_in_progress, handle_deletion_with_active_bindings,
  observe_external, after_get, observe_state,
}

module _ {P : Platform} where
  abbrev pub HasKey : ServiceInstance P → Type 0
  HasKey si = si.at_provider.last_operation_key ≢ ""

  -- The broker names no operation by the empty text, and Kubernetes gives an object with a key back
  -- with a key.
  pub record KeepsKeys (w : World P (ServiceInstance P)) : Type 0 where
    pub provision_key :
        (n : ℕ) (req : ProvisionRequest) (resp : AsyncResponse)
        → w.provision_instance n req ≡ answer (some resp)
        → resp.operation_key ≢ some ""
    pub update_key :
        (n : ℕ) (req : UpdateInstanceRequest) (resp : AsyncResponse)
        → w.update_instance n req ≡ answer (some resp)
        → resp.operation_key ≢ some ""
    pub deprovision_key :
        (n : ℕ) (req : DeprovisionRequest) (resp : DeprovisionResponse)
        → w.deprovision_instance n req ≡ answer (some resp)
        → resp.operation_key ≢ some ""
    pub get_key : (n : ℕ) (si : ServiceInstance P) → HasKey si → HasKey (w.kube_get n si).object
    pub status_update_key :
        (n : ℕ) (si : ServiceInstance P) → HasKey si → HasKey (w.kube_status_update n si).object

module _ (P : Platform) (w : World P (ServiceInstance P)) (k : KeepsKeys w) where
  save_status-HasKey : Keeps HasKey (save_status P w)
  save_status-HasKey = Keeps-wrapping _ _ (Keeps-kube_call _ _ k.status_update_key)

  osb-HasKey :
      (resp : AsyncResponse) (si : ServiceInstance P)
      → resp.operation_key ≢ some ""
      → HasKey si
      → HasKey (update_status_from_osb P resp si)
  unfolding update_status_from_osb
  osb-HasKey resp si h g = ground arith

  after_osb-HasKey :
      (e : InstanceError) (reply : Reply AsyncResponse)
      → ((resp : AsyncResponse) → reply ≡ answer (some resp) → resp.operation_key ≢ some "")
      → Keeps HasKey (after_osb P w e reply)
  unfolding after_osb
  after_osb-HasKey e (failure cause) h = Keeps-raise _
  after_osb-HasKey e (answer none) h = Keeps-crash
  after_osb-HasKey e (answer (some resp)) h =
      Keeps-bind _ _ (Keeps-modify _ (λ si g. osb-HasKey resp si (h resp refl) g))
        (λ _. save_status-HasKey)

  pub provision-HasKey : (disable_async : Bool) → Keeps HasKey (provision P w disable_async)
  unfolding provision
  provision-HasKey disable_async = Keeps-gets-bind _ _ λ si. Keeps-bind _ _ (Keeps-lift _) λ params.
      Keeps-bind _ _ (Keeps-lift _) λ ctx_map.
        Keeps-bind _ _ (Keeps-lift _)
          λ req. Keeps-ask-bind _ _ _ λ n. after_osb-HasKey _ _ (k.provision_key n req)

  pub update-HasKey :
      (oid : OriginatingIdentity) (disable_async : Bool)
      → Keeps HasKey (update P w oid disable_async)
  unfolding update
  update-HasKey oid disable_async = Keeps-gets-bind _ _ λ si.
      Keeps-bind _ _ (Keeps-lift _)
        λ req. Keeps-ask-bind _ _ _ λ n. after_osb-HasKey _ _ (k.update_key n req)

  after_deprovision-HasKey :
      (reply : Reply DeprovisionResponse)
      → ((resp : DeprovisionResponse) → reply ≡ answer (some resp) → resp.operation_key ≢ some "")
      → Keeps HasKey (after_deprovision P w reply)
  unfolding after_deprovision update_status_for_async_deletion
  after_deprovision-HasKey (failure e) h = search keeps_rules
  after_deprovision-HasKey (answer none) h = Keeps-crash
  after_deprovision-HasKey (answer (some resp)) h =
      Keeps-if resp.async _ _
        (Keeps-bind _ _ (Keeps-modify _ (deletion-HasKey resp (h resp refl)))
          (λ _. save_status-HasKey))
        (Keeps-pure tt)
    where
      deletion-HasKey :
          (resp : DeprovisionResponse)
          → resp.operation_key ≢ some ""
          → (si : ServiceInstance P) → HasKey si
          → HasKey (update_status_for_async_deletion P resp si)
      deletion-HasKey resp h si g = ground arith

  request_deprovision-HasKey :
      (oid : OriginatingIdentity) (disable_async : Bool)
      → Keeps HasKey (request_deprovision P w oid disable_async)
  unfolding request_deprovision
  request_deprovision-HasKey oid disable_async = Keeps-gets-bind _ _ λ si.
      Keeps-bind _ _ (Keeps-lift _)
        λ req. Keeps-ask-bind _ _ _ λ n. after_deprovision-HasKey _ (k.deprovision_key n req)

  pub deprovision-HasKey :
      (oid : OriginatingIdentity) (disable_async : Bool)
      → Keeps HasKey (deprovision P w oid disable_async)
  unfolding deprovision
  deprovision-HasKey oid disable_async = Keeps-gets-bind _ _ λ si.
      Keeps-if (is_instance_id_empty P si) _ _ (Keeps-pure tt) (
        Keeps-if (is_already_deleted P si) _ _ (Keeps-pure tt) (
          Keeps-if (has_active_bindings P si) _ _ (Keeps-raise _)
            (request_deprovision-HasKey oid disable_async)))

  last_op-HasKey :
      (r : LastOperationResponse) (si : ServiceInstance P)
      → HasKey si
      → HasKey (update_status_from_last_op (last_operation_status_setter P) r si)
  unfolding update_status_from_last_op last_operation_status_setter
  last_op-HasKey r si h = ground arith

  after_poll-HasKey : (reply : Reply LastOperationResponse) → Keeps HasKey (after_poll P w reply)
  unfolding after_poll get_latest_kube_object
  after_poll-HasKey (failure e) = search keeps_rules
  after_poll-HasKey (answer none) =
      Keeps-bind _ _ (Keeps-wrapping _ _ (Keeps-wrapping _ _ (Keeps-kube_call _ _ k.get_key)))
        (λ _. Keeps-crash)
  after_poll-HasKey (answer (some r)) =
      Keeps-bind _ _ (Keeps-wrapping _ _ (Keeps-wrapping _ _ (Keeps-kube_call _ _ k.get_key))) (λ _.
        Keeps-bind _ _ (Keeps-modify _ (last_op-HasKey r)) (λ _.
          Keeps-bind _ _ (Keeps-gets _) λ deletable.
            Keeps-if deletable _ _ (Keeps-pure _)
              (Keeps-bind _ _ save_status-HasKey (λ _. Keeps-pure _))))

  handle_last_operation_in_progress-HasKey :
      (oid : OriginatingIdentity) → Keeps HasKey (handle_last_operation_in_progress P w oid)
  unfolding handle_last_operation_in_progress
  handle_last_operation_in_progress-HasKey oid =
      Keeps-gets-bind _ _
        λ si. Keeps-bind _ _ (Keeps-lift _) λ req. Keeps-ask-bind _ _ _ λ n. after_poll-HasKey _

  after_get-HasKey : (reply : Reply GetInstanceResponse) → Keeps HasKey (after_get P w reply)
  unfolding after_get
  after_get-HasKey (failure e) = search keeps_rules
  after_get-HasKey (answer r) = search keeps_rules

  observe_external-HasKey : Keeps HasKey (observe_external P w)
  unfolding observe_external
  observe_external-HasKey =
      Keeps-gets-bind _ _
        λ si. Keeps-bind _ _ (Keeps-lift _) λ req. Keeps-ask-bind _ _ _ λ n. after_get-HasKey _

  pub observe_state-HasKey : (oid : OriginatingIdentity) → Keeps HasKey (observe_state P w oid)
  unfolding observe_state handle_deletion_with_active_bindings
  observe_state-HasKey oid = Keeps-gets-bind _ _ λ si.
      Keeps-if (has_last_operation P si) _ _
        (Keeps-bind _ _ (Keeps-wrapping _ _ (handle_last_operation_in_progress-HasKey oid))
          (λ _. Keeps-pure _))
        (Keeps-if (P.was_deleted si.meta) _ _
          (Keeps-bind _ _ (Keeps-wrapping _ _ save_status-HasKey) (λ _. Keeps-pure _))
          observe_external-HasKey)
