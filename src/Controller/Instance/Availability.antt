-- ===== src/Controller/Instance/Availability.antt =====
-- What an observation of an instance says while its operation runs, or after it failed.
use provider_osb.Base.{false, ◌≡◌, ◌≢◌, refl, some, arith, length}
use provider_osb.Osb.{LastOperationRequest, LastOperationResponse, answer}
use provider_osb.Platform.{Platform, World, available}
use provider_osb.Exec.{Session, ok, ◌>>=◌, ◌>>◌}
use provider_osb.Util.{update_status_from_last_op}
use provider_osb.Instance.{
  ServiceInstance, is_deletable, last_operation_status_setter, set_conditions,
}
use provider_osb.Instance.Operations.Polling.{Echoes, after_last_op, poll_lem}
use provider_osb.Controller.Instance.{External, observation, observe}
use provider_osb.Controller.Instance.Convergence.{up_to_date}
use provider_osb.Controller.Instance.Polling.{IsFilled, poll_request, observe-polled}

-- An instance that has an operation and is not to be deleted.
pub record IsOperating {P : Platform} (si : ServiceInstance P) : Type 0 where
  pub present : P.was_deleted si.meta ≡ false
  pub identified : si.for_provider.instance_id ≢ ""
  pub named : si.at_provider.last_operation_key ≢ ""

module _ (P : Platform) (w : World P (ServiceInstance P)) (c : External) where
  not_deletable :
      (r : LastOperationResponse) (si : ServiceInstance P)
      → P.was_deleted si.meta ≡ false
      → is_deletable P (after_last_op P w r si) ≡ false
  unfolding is_deletable update_status_from_last_op last_operation_status_setter
  not_deletable r si present = ground (arith, present)

  after_last_op-state :
      (r : LastOperationResponse) (si : ServiceInstance P)
      → (after_last_op P w r si).at_provider.last_operation_state ≡ r.state
  unfolding update_status_from_last_op last_operation_status_setter
  after_last_op-state r si = ground arith

  -- If Kubernetes accepts what it is given and gives it back, the platform and the value of the
  -- controller's identity are not empty, and the broker answers the poll, then an observation of an
  -- instance that has an id, the key of an operation, and is not to be deleted reports it as up to
  -- date, whatever the state that the broker answers, a failed one and one in progress included: the
  -- status says that state, and the condition that is set last is that the instance is available.
  pub observe-available :
      (r : LastOperationResponse) (s : Session (ServiceInstance P))
      → Echoes P w
      → IsFilled P w c
      → IsOperating s.obj
      → ((q : LastOperationRequest) → w.poll_last_operation (length s.calls) q ≡ answer (some r))
      → let (result, t) = observe P w c s in
        (result ≡ ok up_to_date)
        × (t.obj.at_provider.last_operation_state ≡ r.state)
        × (t.obj.conditions ≡ P.set_conditions (after_last_op P w r s.obj).conditions available)
  unfolding ◌>>=◌ observation set_conditions
  observe-available r s e filled h polled =
      let (q, built) = poll_request P w c s.obj filled h.identified in
      let stays = not_deletable r s.obj h.present in
      let seen =
        observe-polled P w c s _ _ h.identified h.named
          (poll_lem P w e c.originating_identity q r s built (polled q)) in
      rw (seen, stays, ◌>>◌) (refl, after_last_op-state r s.obj, refl)
