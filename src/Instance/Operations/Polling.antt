-- ===== src/Instance/Operations/Polling.antt =====
-- A poll of the last operation, when Kubernetes gives an object back as it is.
use provider_osb.Base.{ℕ, suc, Bool-cases, ◌≡◌, none, some, ◌∷◌, length, inl, inr, if◌then◌else◌}
use provider_osb.Errors.{done}
use provider_osb.Common.{Action, need_to_create, nothing_to_do}
use provider_osb.Osb.{OriginatingIdentity, LastOperationRequest, LastOperationResponse, answer}
use provider_osb.Platform.{Platform, World, Call}
use provider_osb.Exec.{Session, ok, ◌>>=◌}
use provider_osb.Util.{update_status_from_last_op}
use provider_osb.Util.Kube.{get_latest_kube_object}
use provider_osb.Instance.{ServiceInstance, is_deletable, last_operation_status_setter}
use provider_osb.Instance.Requests.{build_poll_last_operation_request}
use provider_osb.Instance.Operations.{handle_last_operation_in_progress}

module _ (P : Platform) (w : World P (ServiceInstance P)) where
  -- Kubernetes accepts what it is given and gives it back.
  pub record Echoes : Type 0 where
    pub got :
        (n : ℕ) (si : ServiceInstance P) → w.kube_get n si ≡ record { error = none; object = si }
    pub saved :
        (n : ℕ) (si : ServiceInstance P)
        → w.kube_status_update n si ≡ record { error = none; object = si }

  -- The object after the answer of a poll.
  abbrev pub after_last_op : LastOperationResponse → ServiceInstance P → ServiceInstance P
  after_last_op = update_status_from_last_op (last_operation_status_setter P)

  -- The session after a poll that was answered: the object is read, and saved unless it can go.
  abbrev pub polled_session :
      LastOperationRequest
      → LastOperationResponse
      → Session (ServiceInstance P)
      → Session (ServiceInstance P)
  polled_session req r s = record {
    obj = after_last_op r s.obj;
    calls =
        let calls = Call.kube_get s.obj ∷ Call.poll_last_operation req ∷ s.calls in
        if is_deletable P (after_last_op r s.obj)
        then calls
        else Call.kube_status_update (after_last_op r s.obj) ∷ calls;
  }

  abbrev pub polled_action : ServiceInstance P → Action
  polled_action si = if is_deletable P si then need_to_create else nothing_to_do

  pub poll_lem :
      (e : Echoes) (oid : OriginatingIdentity) (req : LastOperationRequest)
      (r : LastOperationResponse) (s : Session (ServiceInstance P))
      → build_poll_last_operation_request P s.obj oid ≡ done req
      → w.poll_last_operation (length s.calls) req ≡ answer (some r)
      → handle_last_operation_in_progress P w oid s
        ≡ (ok (polled_action (after_last_op r s.obj)), polled_session req r s)
  unfolding ◌>>=◌ handle_last_operation_in_progress get_latest_kube_object
  poll_lem e oid req r s built polled =
      let got = e.got (suc (length s.calls)) s.obj in
      let saved = e.saved (suc (suc (length s.calls))) (after_last_op r s.obj) in
      elim (Bool-cases (is_deletable P (after_last_op r s.obj))) [
        | inl gone ↦ rw (built, polled, got, gone)
        | inr stays ↦ rw (built, polled, got, stays, saved)
      ]
