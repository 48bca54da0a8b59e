-- ===== src/Instance/Operations/PollOnly.antt =====
-- Polling the last operation never asks for an update.
use provider_osb.Base.{◌≢◌, ◌∷◌, inl, inr, arith, length}
use provider_osb.Common.{need_to_update}
use provider_osb.Osb.{OriginatingIdentity, LastOperationResponse, Reply}
use provider_osb.Platform.{Platform, World, Call}
use provider_osb.Exec.{Session, ok, ◌>>=◌}
use provider_osb.Exec.Rules.{Fallible-cases}
use provider_osb.Util.Kube.{get_latest_kube_object}
use provider_osb.Instance.{ServiceInstance}
use provider_osb.Instance.Requests.{build_poll_last_operation_request}
use provider_osb.Instance.Operations.{after_poll, handle_last_operation_in_progress}

module _ (P : Platform) (w : World P (ServiceInstance P)) where
  after_poll-ne-update :
      (reply : Reply LastOperationResponse) (s : Session (ServiceInstance P))
      → (after_poll P w reply s).0 ≢ ok need_to_update
  unfolding ◌>>=◌ after_poll get_latest_kube_object
  after_poll-ne-update reply s = ground arith

  pub handle_last_operation_in_progress-ne-update :
      (oid : OriginatingIdentity) (s : Session (ServiceInstance P))
      → (handle_last_operation_in_progress P w oid s).0 ≢ ok need_to_update
  unfolding ◌>>=◌ handle_last_operation_in_progress
  handle_last_operation_in_progress-ne-update oid s =
      elim (Fallible-cases (build_poll_last_operation_request P s.obj oid)) [
        | inl (e, failed) ↦ ground arith
        | inr (req, built) ↦ ground (
          arith,
          after_poll-ne-update (w.poll_last_operation (length s.calls) req)
              (record s { calls = Call.poll_last_operation req ∷ s.calls }),
        )
      ]
