-- ===== src/Instance/Operations/Panics.antt =====
-- Which nil pointers of the broker's client an instance survives.
use provider_osb.Base.{inl, inr, length, ◌∷◌, ℕ, ◌≢◌, Option, none, arith}
use provider_osb.Common.{Action, nothing_to_do, need_to_create, need_to_update}
use provider_osb.Osb.{
  OriginatingIdentity, LastOperationRequest, LastOperationResponse, GetInstanceResponse, Reply,
  answer,
}
use provider_osb.Platform.{Platform, World, Call}
use provider_osb.Exec.{Session, Result, ok, err, panic, ◌>>=◌}
use provider_osb.Exec.Rules.{Fallible-cases}
use provider_osb.Instance.Requests.{build_poll_last_operation_request}
use provider_osb.Util.Kube.{get_latest_kube_object}
use provider_osb.Instance.{ServiceInstance}
use provider_osb.Instance.Operations.{
  compare_spec_with_osb, handle_last_operation_in_progress, observe_external, observe_state,
  after_poll, handle_deletion_with_active_bindings,
}

module _ (P : Platform) (w : World P (ServiceInstance P)) where
  -- No reply to a poll has both a nil error and a nil response.
  abbrev pub PollsAnswered : Type 0
  PollsAnswered = (n : ℕ) (req : LastOperationRequest) → w.poll_last_operation n req ≢ answer none

module _ (P : Platform) where
  -- An answer that comes with a response for each update it asks for.
  abbrev pub HasResponse : Result (Action × Option GetInstanceResponse) → Type 0
  HasResponse (ok (need_to_update, resp)) = resp ≢ none
  HasResponse (ok (nothing_to_do, resp)) = Unit
  HasResponse (ok (need_to_create, resp)) = Unit
  HasResponse (err e) = Unit
  HasResponse panic = ⊥

-- Polling the last operation never asks for an update.
abbrev IsPollResult : Result Action → Type 0
IsPollResult (ok nothing_to_do) = Unit
IsPollResult (ok need_to_create) = Unit
IsPollResult (ok need_to_update) = ⊥
IsPollResult (err e) = Unit
IsPollResult panic = ⊥

module _ (P : Platform) (w : World P (ServiceInstance P)) (s : Session (ServiceInstance P)) where
  observe_external-HasResponse : HasResponse P (observe_external P w s).0
  unfolding ◌>>=◌ observe_external compare_spec_with_osb
  observe_external-HasResponse = ground arith

  after_poll-IsPollResult :
      (reply : Reply LastOperationResponse)
      → reply ≢ answer none
      → IsPollResult (after_poll P w reply s).0
  unfolding ◌>>=◌ after_poll get_latest_kube_object
  after_poll-IsPollResult reply h = ground arith

module _ (P : Platform) (w : World P (ServiceInstance P)) (answered : PollsAnswered P w) where
  handle_last_operation_in_progress-IsPollResult :
      (oid : OriginatingIdentity) (s : Session (ServiceInstance P))
      → IsPollResult (handle_last_operation_in_progress P w oid s).0
  unfolding ◌>>=◌ handle_last_operation_in_progress
  handle_last_operation_in_progress-IsPollResult oid s =
      elim (Fallible-cases (build_poll_last_operation_request P s.obj oid)) [
        | inl (e, failed) ↦ ground arith
        | inr (req, built) ↦ ground (
          arith,
          answered (length s.calls) req,
          after_poll-IsPollResult P w (record s { calls = Call.poll_last_operation req ∷ s.calls })
              (w.poll_last_operation (length s.calls) req),
        )
      ]

  pub observe_state-HasResponse :
      (oid : OriginatingIdentity) (s : Session (ServiceInstance P))
      → HasResponse P (observe_state P w oid s).0
  unfolding ◌>>=◌ observe_state handle_deletion_with_active_bindings
  observe_state-HasResponse oid s = ground (
    arith,
    handle_last_operation_in_progress-IsPollResult oid s,
    observe_external-HasResponse P w s,
  )
