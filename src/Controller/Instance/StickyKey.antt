-- ===== src/Controller/Instance/StickyKey.antt =====
-- Once an instance has the key of an operation, the controller only ever polls that operation.
use provider_osb.Base.{true, ◌≡◌, Option, List, [], ◌∷◌, arith, eq_iff}
use provider_osb.Common.{Action}
use provider_osb.Osb.{GetInstanceResponse}
use provider_osb.Platform.{Platform, World, Condition}
use provider_osb.Exec.{Session, ok, ◌>>=◌}
use provider_osb.Exec.Keeps.{
  Keeps, Keeps-pure, Keeps-raise, Keeps-deref, Keeps-bind, Keeps-wrapping, Keeps-modify,
  Keeps-gets-bind, Keeps-if,
}
use provider_osb.Instance.{
  ServiceInstance, set_conditions, has_last_operation, is_instance_id_empty,
}
use provider_osb.Instance.Operations.{observe_state}
use provider_osb.Instance.Operations.PollOnly.{handle_last_operation_in_progress-ne-update}
use provider_osb.Instance.Operations.StickyKey.{
  HasKey, KeepsKeys, observe_state-HasKey, provision-HasKey, update-HasKey, deprovision-HasKey,
}
use provider_osb.Controller.{ExternalObservation}
use provider_osb.Controller.Instance.{External, observation, observe, create, update, delete}

-- The calls of the managed reconciler, in any order.
pub data Operation : Type 0 where
  observing creating updating deleting : Operation

module _ (P : Platform) (w : World P (ServiceInstance P)) (c : External) where
  -- One call leaves the object and the calls as they are when it returns, or fails.
  unfoldable pub run : Operation → Session (ServiceInstance P) → Session (ServiceInstance P)
  unfolding observe create update delete
  run observing s = (observe P w c s).1
  run creating s = (create P w c s).1
  run updating s = (update P w c s).1
  run deleting s = (delete P w c s).1

  unfoldable pub run_all :
      List Operation → Session (ServiceInstance P) → Session (ServiceInstance P)
  unfolding run
  run_all [] s = s
  run_all (op ∷ ops) s = run_all ops (run op s)

  module _ (k : KeepsKeys w) where
    set_conditions-HasKey :
        (x : Condition) (si : ServiceInstance P) → HasKey si → HasKey (set_conditions P x si)
    unfolding set_conditions
    set_conditions-HasKey x si h = h

    observation-HasKey :
        (a : Action × Option GetInstanceResponse) → Keeps HasKey (observation P w c a)
    unfolding observation
    observation-HasKey (Action.need_to_create, r) = Keeps-pure _
    observation-HasKey (Action.need_to_update, r) =
        Keeps-bind _ _ (Keeps-deref r) (λ _. Keeps-pure _)
    observation-HasKey (Action.nothing_to_do, r) =
        Keeps-bind _ _ (Keeps-modify _ (set_conditions-HasKey Condition.available))
          (λ _. Keeps-pure _)

    run-HasKey :
        (op : Operation) (s : Session (ServiceInstance P)) → HasKey s.obj → HasKey (run op s).obj
    unfolding run observe create update delete
    run-HasKey observing =
        (Keeps-gets-bind _ _ λ si. Keeps-if (is_instance_id_empty P si) _ _ (Keeps-raise _) (
          Keeps-bind _ _ (Keeps-wrapping _ _ (observe_state-HasKey P w k c.originating_identity))
            observation-HasKey)).at
    run-HasKey creating =
        (Keeps-bind _ _ (Keeps-wrapping _ _ (provision-HasKey P w k c.disable_async))
          (λ _. Keeps-pure _)).at
    run-HasKey updating =
        (Keeps-bind _ _
          (Keeps-wrapping _ _ (update-HasKey P w k c.originating_identity c.disable_async))
          (λ _. Keeps-pure _)).at
    run-HasKey deleting =
        (Keeps-bind _ _ (Keeps-modify _ (set_conditions-HasKey Condition.deleting)) (λ _.
          Keeps-bind _ _
            (Keeps-wrapping _ _ (deprovision-HasKey P w k c.originating_identity c.disable_async))
            (λ _. Keeps-pure _))).at

    run_all-HasKey :
        (ops : List Operation) (s : Session (ServiceInstance P))
        → HasKey s.obj
        → HasKey (run_all ops s).obj
    unfolding run_all
    run_all-HasKey [] s h = h
    run_all-HasKey (op ∷ ops) s h = run_all-HasKey ops (run op s) (run-HasKey op s h)

    observe-up_to_date :
        (s : Session (ServiceInstance P)) (r : ExternalObservation)
        → HasKey s.obj
        → (observe P w c s).0 ≡ ok r
        → r.resource_exists ≡ true
        → r.resource_up_to_date ≡ true
    unfolding ◌>>=◌ observe observe_state has_last_operation
    observe-up_to_date s r key h exists = ground (
      arith,
      eq_iff s.obj.at_provider.last_operation_key "",
      handle_last_operation_in_progress-ne-update P w c.originating_identity s,
    )

    -- If the broker names no operation by the empty text, and Kubernetes keeps the key of an object
    -- that has one, then after any calls of an instance that has a key, an observation that finds
    -- the resource reports it as up to date: no change of the spec leads to an update any more.
    pub no_update_after_key :
        (ops : List Operation) (s : Session (ServiceInstance P)) (r : ExternalObservation)
        → HasKey s.obj
        → (observe P w c (run_all ops s)).0 ≡ ok r
        → r.resource_exists ≡ true
        → r.resource_up_to_date ≡ true
    no_update_after_key ops s r key =
        observe-up_to_date (run_all ops s) r (run_all-HasKey ops s key)
