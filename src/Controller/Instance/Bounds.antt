-- ===== src/Controller/Instance/Bounds.antt =====
-- The number of calls that the controller of an instance makes.
use Prim.Native.Nat.{◌*◌}
use provider_osb.Base.{◌+◌, ◌≤◌, Option, List, [], ◌∷◌, arith, length}
use provider_osb.Common.{Action}
use provider_osb.Osb.{GetInstanceResponse}
use provider_osb.Platform.{Platform, World}
use provider_osb.Exec.{Session}
use provider_osb.Exec.AtMost.{
  AtMost, AtMost-pure, AtMost-raise, AtMost-deref, AtMost-wrapping, AtMost-if, AtMost-modify,
  AtMost-bind, AtMost-gets_bind,
}
use provider_osb.Instance.{ServiceInstance, is_instance_id_empty}
use provider_osb.Instance.Operations.Bounds.{
  provision-AtMost, update-AtMost, deprovision-AtMost, observe_state-AtMost,
}
use provider_osb.Controller.Instance.{External, observation, observe, create, update, delete}
use provider_osb.Controller.Instance.StickyKey.{
  Operation, observing, creating, updating, deleting, run, run_all,
}

module _ (P : Platform) (w : World P (ServiceInstance P)) (c : External) where
  observation-AtMost : (a : Action × Option GetInstanceResponse) → AtMost 0 (observation P w c a)
  unfolding observation
  observation-AtMost (Action.need_to_create, r) = AtMost-pure 0 _
  observation-AtMost (Action.need_to_update, r) =
      AtMost-bind 0 0 _ _ (AtMost-deref 0 r) (λ _. AtMost-pure 0 _)
  observation-AtMost (Action.nothing_to_do, r) =
      AtMost-bind 0 0 _ _ (AtMost-modify 0 _) (λ _. AtMost-pure 0 _)

  -- An observation, a creation, an update or a deletion, whether it succeeds or not.
  run-bounded :
      (op : Operation) (s : Session (ServiceInstance P))
      → length (run P w c op s).calls ≤ length s.calls + 3
  unfolding run observe create update delete
  run-bounded observing =
      (AtMost-gets_bind 3 _ _ λ si. AtMost-if 3 (is_instance_id_empty P si) _ _ (AtMost-raise 3 _) (
        AtMost-bind 3 0 _ _
          (AtMost-wrapping 3 _ _ (observe_state-AtMost P w c.originating_identity))
          observation-AtMost)).at
  run-bounded creating =
      (AtMost-bind 2 1 _ _ (AtMost-wrapping 2 _ _ (provision-AtMost P w c.disable_async))
        (λ _. AtMost-pure 1 _)).at
  run-bounded updating =
      (AtMost-bind 2 1 _ _
        (AtMost-wrapping 2 _ _ (update-AtMost P w c.originating_identity c.disable_async))
        (λ _. AtMost-pure 1 _)).at
  run-bounded deleting =
      (AtMost-bind 0 3 _ _ (AtMost-modify 0 _) (λ _.
        AtMost-bind 2 1 _ _
          (AtMost-wrapping 2 _ _ (deprovision-AtMost P w c.originating_identity c.disable_async))
          (λ _. AtMost-pure 1 _))).at

  -- Any sequence of observations, creations, updates and deletions of an instance, whatever the
  -- broker and Kubernetes answer, makes at most three calls of them for each of its members.
  pub run_instance_le :
      (ops : List Operation) (s : Session (ServiceInstance P))
      → length (run_all P w c ops s).calls ≤ length s.calls + 3 * length ops
  unfolding run_all
  run_instance_le [] s = omega arith
  run_instance_le (op ∷ ops) s =
      let first = run-bounded op s in
      let rest = run_instance_le ops (run P w c op s) in omega (arith, first, rest)
