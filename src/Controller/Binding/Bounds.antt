-- ===== src/Controller/Binding/Bounds.antt =====
-- The number of calls that the controller of a binding makes.
use Prim.Native.Nat.{◌*◌}
use provider_osb.Base.{
  ◌+◌, ◌≤◌, Bool, true, false, none, some, Option, List, [], ◌∷◌, arith, length,
}
use provider_osb.Common.{Action}
use provider_osb.Osb.{BindResponse}
use provider_osb.Platform.{Platform, World}
use provider_osb.Exec.{Session}
use provider_osb.Exec.AtMost.{
  AtMost, AtMost-pure, AtMost-crash, AtMost-wrapping, AtMost-modify, AtMost-bind, AtMost-gets_bind,
  AtMost-lift_bind,
}
use provider_osb.Util.{Credentials}
use provider_osb.Binding.{ServiceBinding}
use provider_osb.Binding.Operations.Bounds.{bind-AtMost, un_bind-AtMost, trigger_rotation-AtMost}
use provider_osb.Binding.Operations.Observe.Bounds.{observe_state-AtMost}
use provider_osb.Controller.Binding.{
  External, observation, created, after_bind, observe, create, update, delete,
}
use provider_osb.Controller.Binding.Runs.{
  Operation, observing, creating, updating, deleting, run, run_all,
}

module _ (P : Platform) (w : World P (ServiceBinding P)) (c : External) where
  observation-AtMost : (a : Action × Credentials) → AtMost 0 (observation P w c a)
  unfolding observation
  observation-AtMost (Action.need_to_create, r) = AtMost-pure 0 _
  observation-AtMost (Action.need_to_update, r) = AtMost-pure 0 _
  observation-AtMost (Action.nothing_to_do, r) =
      AtMost-bind 0 0 _ _ (AtMost-modify 0 _) (λ _. AtMost-pure 0 _)

  created-AtMost : (resp : BindResponse P.Endpoints P.VolumeMounts) → AtMost 1 (created P w c resp)
  unfolding created
  created-AtMost resp = AtMost-lift_bind 1 _ _ λ creds. AtMost-gets_bind 1 _ _ λ sb.
      AtMost-lift_bind 1 _ _ λ response_data.
        AtMost-lift_bind 1 _ _
          λ written. AtMost-bind 0 1 _ _ (AtMost-modify 0 _) (λ _. AtMost-pure 1 _)

  after_bind-AtMost :
      (r : Option (BindResponse P.Endpoints P.VolumeMounts) × Bool) → AtMost 1 (after_bind P w c r)
  unfolding after_bind
  after_bind-AtMost (resp, true) = AtMost-pure 1 _
  after_bind-AtMost (none, false) = AtMost-crash 1
  after_bind-AtMost (some resp, false) = created-AtMost resp

  -- An observation, a creation, an update or a deletion, whether it succeeds or not.
  run-bounded :
      (op : Operation) (s : Session (ServiceBinding P))
      → length (run P w c op s).calls ≤ length s.calls + 3
  unfolding run observe create update delete
  run-bounded observing =
      (AtMost-bind 3 0 _ _
        (AtMost-wrapping 3 _ _ (observe_state-AtMost P w c.rotate_binding c.originating_identity))
        observation-AtMost).at
  run-bounded creating =
      (AtMost-bind 2 1 _ _
        (AtMost-wrapping 2 _ _ (bind-AtMost P w c.originating_identity c.disable_async))
        after_bind-AtMost).at
  run-bounded updating =
      (AtMost-bind 3 0 _ _
        (AtMost-wrapping 3 _ _ (trigger_rotation-AtMost P w c.originating_identity))
        (λ _. AtMost-pure 0 _)).at
  run-bounded deleting =
      (AtMost-bind 0 3 _ _ (AtMost-modify 0 _) (λ _.
        AtMost-bind 2 1 _ _ (AtMost-wrapping 2 _ _ (un_bind-AtMost P w c.originating_identity))
          (λ _. AtMost-pure 1 _))).at

  -- Any sequence of observations, creations, updates and deletions of a binding, whatever the broker,
  -- Kubernetes and the clock answer, makes at most three calls for each of its members, the readings of
  -- the clock and the new UUIDs included.
  pub run_binding_le :
      (ops : List Operation) (s : Session (ServiceBinding P))
      → length (run_all P w c ops s).calls ≤ length s.calls + 3 * length ops
  unfolding run_all
  run_binding_le [] s = omega arith
  run_binding_le (op ∷ ops) s =
      let first = run-bounded op s in
      let rest = run_binding_le ops (run P w c op s) in omega (arith, first, rest)
