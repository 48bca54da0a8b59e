-- ===== src/Controller/Instance/Polling.antt =====
-- Observations of an instance that is deleted, one after the other.
use Prim.Native.Nat.{◌*◌}
use provider_osb.Base.{
  ℕ, zero, suc, ◌+◌, ◌≤◌, Bool-cases, true, false, ◌≡◌, ◌≢◌, none, some, List, [], ◌∷◌, arith,
  eq_iff, refl, length, inl, inr,
}
use provider_osb.Errors.{done}
use provider_osb.Exec.Rules.{Fallible-cases}
use provider_osb.Common.{Action}
use provider_osb.Osb.{LastOperationRequest, LastOperationResponse, answer, succeeded}
use provider_osb.Platform.{Platform, World}
use provider_osb.Exec.{Session, ok, ◌>>=◌}
use provider_osb.Util.{update_status_from_last_op}
use provider_osb.Instance.{
  ServiceInstance, has_last_operation, is_deletable, last_operation_status_setter, set_conditions,
  is_instance_id_empty,
}
use provider_osb.Instance.Requests.{build_poll_last_operation_request}
use provider_osb.Instance.Operations.{handle_last_operation_in_progress, observe_state}
use provider_osb.Instance.Operations.Polling.{Echoes, after_last_op, poll_lem}
use provider_osb.Controller.{no_observation}
use provider_osb.Controller.Instance.{External, observation, observe}
use provider_osb.Controller.Instance.StickyKey.{Operation, observing, run, run_all}

-- The broker answers each poll, from call `N` on with success.
pub record FinishesBy {P : Platform} (w : World P (ServiceInstance P)) (N : ℕ) : Type 0 where
  pub reply : ℕ → LastOperationRequest → LastOperationResponse
  pub polled :
      (n : ℕ) (r : LastOperationRequest) → w.poll_last_operation n r ≡ answer (some (reply n r))
  pub finished : (n : ℕ) (r : LastOperationRequest) → N ≤ n → (reply n r).state ≡ succeeded

-- An instance without bindings whose deletion has begun.
pub record IsDeleting {P : Platform} (si : ServiceInstance P) : Type 0 where
  pub deleted : P.was_deleted si.meta ≡ true
  pub identified : si.for_provider.instance_id ≢ ""
  pub named : si.at_provider.last_operation_key ≢ ""
  pub unbound : si.at_provider.has_active_bindings ≡ false

-- Any number of observations.
abbrev pub observations : ℕ → List Operation
observations zero = []
observations (suc k) = observing ∷ observations k

module _ (P : Platform) (w : World P (ServiceInstance P)) (c : External) where
  -- The identity of the controller is filled.
  abbrev pub IsFilled : Type 0
  IsFilled = (c.originating_identity.platform ≢ "") × (c.originating_identity.value ≢ "")

  pub poll_request :
      (si : ServiceInstance P)
      → IsFilled
      → si.for_provider.instance_id ≢ ""
      → (req : LastOperationRequest) × (build_poll_last_operation_request P si
            c.originating_identity
          ≡ done req)
  unfolding build_poll_last_operation_request
  poll_request si filled identified =
      elim (Fallible-cases (build_poll_last_operation_request P si c.originating_identity)) [
        | inl (e, failed) ↦ absurd (
            ground (
              arith,
              identified,
              eq_iff si.for_provider.instance_id "",
              eq_iff c.originating_identity.platform "",
              eq_iff c.originating_identity.value "",
            ))
        | inr built ↦ built
      ]

  -- What an observation does that polls the operation.
  pub observe-polled :
      (s t : Session (ServiceInstance P)) (a : Action)
      → s.obj.for_provider.instance_id ≢ ""
      → s.obj.at_provider.last_operation_key ≢ ""
      → handle_last_operation_in_progress P w c.originating_identity s ≡ (ok a, t)
      → observe P w c s ≡ observation P w c (a, none) t
  unfolding ◌>>=◌ observe observe_state is_instance_id_empty has_last_operation
  observe-polled s t a known given polled =
      let named : has_last_operation P s.obj ≡ true =
        ground (arith, given, eq_iff s.obj.at_provider.last_operation_key "") in
      let identified : is_instance_id_empty P s.obj ≡ false =
        ground (arith, known, eq_iff s.obj.for_provider.instance_id "") in
      rw (identified, named, polled)

module _ (P : Platform) (w : World P (ServiceInstance P)) (c : External) (N : ℕ) where
  after_last_op-IsDeleting :
      (r : LastOperationResponse) (si : ServiceInstance P)
      → IsDeleting si
      → IsDeleting (after_last_op P w r si)
  unfolding update_status_from_last_op last_operation_status_setter
  after_last_op-IsDeleting r si h = record {
    deleted = ground (arith, h.deleted);
    identified = ground (arith, h.identified);
    named = ground (arith, h.named);
    unbound = ground (arith, h.unbound);
  }

  is_deletable-after_last_op :
      (r : LastOperationResponse) (si : ServiceInstance P)
      → IsDeleting si
      → r.state ≡ succeeded
      → is_deletable P (after_last_op P w r si) ≡ true
  unfolding is_deletable update_status_from_last_op last_operation_status_setter
  is_deletable-after_last_op r si h e = ground (arith, h.deleted, h.unbound, e)

  -- An observation polls, reads the object, and reports that it is gone once the broker succeeded.
  record Observed (f : FinishesBy w N) (s : Session (ServiceInstance P)) : Type 0 where
    pub still : IsDeleting (run P w c observing s).obj
    pub longer : length s.calls + 2 ≤ length (run P w c observing s).calls
    pub gone : N ≤ length s.calls → (observe P w c s).0 ≡ ok no_observation

  run-observing : (s : Session (ServiceInstance P)) → run P w c observing s ≡ (observe P w c s).1
  unfolding run
  run-observing s = refl

  observing-Observed :
      (f : FinishesBy w N) (s : Session (ServiceInstance P))
      → Echoes P w
      → IsFilled P w c
      → IsDeleting s.obj
      → Observed f s
  unfolding ◌>>=◌ observation set_conditions
  observing-Observed f s e filled h =
      let (req, built) = poll_request P w c s.obj filled h.identified in
      let r : LastOperationResponse = f.reply (length s.calls) req in
      let after = after_last_op-IsDeleting r s.obj h in
      let polled =
        observe-polled P w c s _ _ h.identified h.named
          (poll_lem P w e c.originating_identity req r s built (f.polled (length s.calls) req)) in
      elim (Bool-cases (is_deletable P (after_last_op P w r s.obj))) [
        | inl can_go ↦ record {
          still = rw (run-observing s, polled, can_go) after;
          longer = rw (run-observing s, polled, can_go) (omega arith);
          gone = λ late. rw (polled, can_go);
        }
        | inr stays ↦ record {
          still =
              rw (run-observing s, polled, stays)
                (record {
                  deleted = after.deleted;
                  identified = after.identified;
                  named = after.named;
                  unbound = after.unbound;
                });
          longer = rw (run-observing s, polled, stays) (omega arith);
          gone = λ late. absurd (
              ground (
                arith,
                is_deletable-after_last_op r s.obj h (f.finished (length s.calls) req late),
              ));
        }
      ]

  -- If the broker answers each poll, from some call on with success, Kubernetes accepts what it is
  -- given and gives it back, and the platform and the value of the controller's identity are not empty,
  -- then an instance without bindings that has an id, the key of an operation, and that Kubernetes says
  -- is to be deleted, is reported as gone after so many observations that two calls for each of them
  -- reach that call: polling ends.
  pub observations_end :
      (f : FinishesBy w N) (k : ℕ) (s : Session (ServiceInstance P))
      → Echoes P w
      → IsFilled P w c
      → IsDeleting s.obj
      → N ≤ length s.calls + 2 * k
      → (observe P w c (run_all P w c (observations k) s)).0 ≡ ok no_observation
  unfolding run_all
  observations_end f zero s e filled h enough =
      (observing-Observed f s e filled h).gone (omega (arith, enough))
  observations_end f (suc k) s e filled h enough =
      let first = observing-Observed f s e filled h in
      let longer = first.longer in
      observations_end f k (run P w c observing s) e filled first.still
        (omega (arith, enough, longer))
