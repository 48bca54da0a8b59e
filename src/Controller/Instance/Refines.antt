-- ===== src/Controller/Instance/Refines.antt =====
-- The methods of the controller of an instance, beside the life cycle.
use provider_osb.Controller.Instance.Polling.{observations}
use provider_osb.Base.{ℕ, zero, suc, sym, ◌≡◌, refl, inl, inr, ap, ◌∙◌, Option, List, [], ◌∷◌}
use provider_osb.Common.{Action}
use provider_osb.Osb.{GetInstanceResponse}
use provider_osb.Platform.{Platform, World}
use provider_osb.Exec.{Session}
use provider_osb.Exec.Keeps.{Keeps, Keeps-pure, Keeps-raise, Keeps-deref, Keeps-bind, Keeps-modify}
use provider_osb.Exec.Leads.{
  Leads-weaken, Leads-wrapping, Leads-if, Leads-keep, Leads-then, Leads-gets_bind,
}
use provider_osb.Instance.{ServiceInstance, set_conditions, is_instance_id_empty}
use provider_osb.Instance.Lifecycle.{
  View, view, Activity, polling, sending, removing, MayStep, Runs, stop, next, polled,
}
use provider_osb.Instance.Operations.Refines.{
  EchoesStatus, provision-After, update-After, deprovision-After,
}
use provider_osb.Instance.Operations.Refines.Polls.{observe_state-After}
use provider_osb.Controller.Instance.{External, observation, observe, create, update, delete}
use provider_osb.Controller.Instance.StickyKey.{
  Operation, observing, creating, updating, deleting, run, run_all,
}

-- What each method does with the broker.
abbrev pub activity : Operation → Activity
activity observing = polling
activity creating = sending
activity updating = sending
activity deleting = removing

abbrev pub activities : List Operation → List Activity
activities [] = []
activities (op ∷ ops) = activity op ∷ activities ops

module _ (P : Platform) (w : World P (ServiceInstance P)) (c : External) (k : EchoesStatus w) where
  abbrev After : View → Activity → ServiceInstance P → Type 0
  After v a si = MayStep a v (view si)

  observation-After :
      (v : View) (a : Action × Option GetInstanceResponse)
      → Keeps (After v polling) (observation P w c a)
  unfolding observation set_conditions
  observation-After v (Action.need_to_create, r) = Keeps-pure _
  observation-After v (Action.need_to_update, r) =
      Keeps-bind _ _ (Keeps-deref r) (λ _. Keeps-pure _)
  observation-After v (Action.nothing_to_do, r) =
      Keeps-bind _ _ (Keeps-modify _ (λ si h. h)) (λ _. Keeps-pure _)

  run-MayStep :
      (op : Operation) (s : Session (ServiceInstance P))
      → MayStep (activity op) (view s.obj) (view (run P w c op s).obj)
  unfolding run observe create update delete set_conditions
  run-MayStep observing s =
      (Leads-gets_bind _ _ λ si.
          Leads-if (is_instance_id_empty P si) _ _ (Leads-weaken _ (λ si h. inl h) (Keeps-raise _))
            (Leads-keep _ _
              (Leads-wrapping _ _ (observe_state-After P w k (view s.obj) c.originating_identity))
              (observation-After (view s.obj)))).at
        s refl
  run-MayStep creating s =
      (Leads-keep _ _ (Leads-wrapping _ _ (provision-After P w k (view s.obj) c.disable_async))
          (λ _. Keeps-pure _)).at
        s refl
  run-MayStep updating s =
      (Leads-keep _ _
          (Leads-wrapping _ _
            (update-After P w k (view s.obj) c.originating_identity c.disable_async))
          (λ _. Keeps-pure _)).at
        s refl
  run-MayStep deleting s =
      (Leads-then (λ si h. inl h) _ _ (Keeps-modify _ (λ si h. h))
          (λ _.
            Leads-keep _ _
              (Leads-wrapping _ _
                (deprovision-After P w k (view s.obj) c.originating_identity c.disable_async))
              (λ _. Keeps-pure _))).at
        s refl

  -- If Kubernetes gives the status of an instance back as it was written, then any sequence of
  -- observations, creations, updates and deletions refines the life cycle: each of them changes the
  -- state and the key of the last operation by at most one step that the life cycle allows for it.
  pub run_all-Runs :
      (ops : List Operation) (s : Session (ServiceInstance P))
      → Runs (activities ops) (view s.obj) (view (run_all P w c ops s).obj)
  unfolding run_all
  run_all-Runs [] s = stop
  run_all-Runs (op ∷ ops) s = next (run-MayStep op s) (run_all-Runs ops (run P w c op s))

  observation-unnamed : (v t : View) → v.key ≡ "" → MayStep polling v t → t ≡ v
  observation-unnamed v t unnamed (inl same) = sym same
  observation-unnamed v _ unnamed (inr (polled named state)) = absurd (named unnamed)

  -- If Kubernetes gives the status of an instance back as it was written, then observations leave the
  -- state and the key of the last operation alone in an instance without the key of an operation.
  pub observations-unnamed :
      (n : ℕ) (s : Session (ServiceInstance P))
      → s.obj.at_provider.last_operation_key ≡ ""
      → view (run_all P w c (observations n) s).obj ≡ view s.obj
  unfolding run_all
  observations-unnamed zero s unnamed = refl
  observations-unnamed (suc n) s unnamed =
      let first = observation-unnamed _ _ unnamed (run-MayStep observing s) in
      let unnamed' = ap View.key first ∙ unnamed in
      observations-unnamed n (run P w c observing s) unnamed' ∙ first
