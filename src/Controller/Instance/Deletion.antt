-- ===== src/Controller/Instance/Deletion.antt =====
-- The life of an instance that is deleted: `Delete`, and the observation that follows it.
use provider_osb.Base.{ℕ, String, true, ◌≡◌, ◌≢◌, none, some, arith, eq_iff}
use provider_osb.Osb.{DeprovisionRequest, LastOperationRequest, answer, succeeded}
use provider_osb.Platform.{Platform, World}
use provider_osb.Exec.{Session, ok, ◌>>=◌}
use provider_osb.Util.Kube.{get_latest_kube_object}
use provider_osb.Instance.{
  ServiceInstance, has_last_operation, is_deletable, update_status_for_async_deletion,
}
use provider_osb.Instance.Requests.{build_deprovision_request, build_poll_last_operation_request}
use provider_osb.Instance.Operations.{
  deprovision, request_deprovision, handle_last_operation_in_progress, observe_state,
}
use provider_osb.Controller.{ExternalDelete, no_observation}
use provider_osb.Controller.Instance.{External, observe, delete}

-- The broker deletes asynchronously and names the operation, each poll reports success, and
-- Kubernetes accepts what it is given and gives it back.
pub record DeletesLater {P : Platform} (w : World P (ServiceInstance P)) (key : String)
    : Type 0 where
  pub named : key ≢ ""
  pub accepted :
      (n : ℕ) (r : DeprovisionRequest)
      → w.deprovision_instance n r
        ≡ answer (some (record { async = true; operation_key = some key }))
  pub polled :
      (n : ℕ) (r : LastOperationRequest)
      → w.poll_last_operation n r ≡ answer (some (record { state = succeeded; description = none }))
  pub got :
      (n : ℕ) (si : ServiceInstance P) → w.kube_get n si ≡ record { error = none; object = si }
  pub saved :
      (n : ℕ) (si : ServiceInstance P)
      → w.kube_status_update n si ≡ record { error = none; object = si }

module _ (P : Platform) (w : World P (ServiceInstance P)) (c : External) (key : String)
    (later : DeletesLater w key) (s : Session (ServiceInstance P)) where
  -- If the broker deletes asynchronously and names the operation, each poll reports success, and
  -- Kubernetes accepts what it is given and gives it back, then a deletion that succeeds, of an
  -- instance that has an id and that Kubernetes says is to be deleted, is complete at the next
  -- observation: it reports that the resource does not exist.
  pub delete-completes :
      (d : ExternalDelete)
      → P.was_deleted s.obj.meta ≡ true
      → s.obj.for_provider.instance_id ≢ ""
      → (delete P w c s).0 ≡ ok d
      → (observe P w c (delete P w c s).1).0 ≡ ok no_observation
  unfolding ◌>>=◌ delete observe deprovision request_deprovision observe_state
      handle_last_operation_in_progress build_deprovision_request build_poll_last_operation_request
      get_latest_kube_object has_last_operation is_deletable update_status_for_async_deletion
  delete-completes d deleted identified deleting = grind (
    arith,
    eq_iff key "",
    eq_iff s.obj.for_provider.instance_id "",
    later.named,
    later.accepted,
    later.polled,
    later.got,
    later.saved,
  )
