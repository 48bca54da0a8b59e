-- ===== src/Controller/Instance/PlanChange.antt =====
-- A change of the plan of an instance.
use provider_osb.Base.{
  Option-cases, ℕ, true, false, ◌≡◌, inl, inr, ap, ◌∙◌, some, arith, length, eq_iff,
}
use provider_osb.Errors.{done}
use provider_osb.Common.{nothing_to_do}
use provider_osb.Osb.{GetInstanceRequest, GetInstanceResponse, answer}
use provider_osb.Platform.{Platform, World}
use provider_osb.Exec.{Session, ok, ◌>>=◌}
use provider_osb.Exec.Rules.{Reply-cases, Fallible-cases}
use provider_osb.Instance.{ServiceInstance, has_last_operation}
use provider_osb.Instance.Requests.{build_get_instance_request}
use provider_osb.Instance.Operations.{observe_state, observe_external, compare_spec_with_osb}
use provider_osb.Instance.Operations.Comparison.{PlanDiffers, plan_change_hides}
use provider_osb.Controller.{ExternalObservation}
use provider_osb.Controller.Instance.{External, observe}

module _ (P : Platform) (w : World P (ServiceInstance P)) (c : External)
    (s : Session (ServiceInstance P)) where
  -- Every instance that the broker reports has another plan than the spec, which names one.
  abbrev pub ReportsOtherPlan : Type 0
  ReportsOtherPlan =
      (n : ℕ) (req : GetInstanceRequest) (got : GetInstanceResponse)
      → w.get_instance n req ≡ answer (some got)
      → PlanDiffers P s.obj got

  -- If the broker reports another plan than the spec names, an observation of an instance without an
  -- operation that finds the resource reports it as up to date, so the change of the plan, and any
  -- change made with it, is not sent.
  pub observe-hides_plan_change :
      (r : ExternalObservation)
      → ReportsOtherPlan
      → (observe P w c s).0 ≡ ok r
      → s.obj.at_provider.last_operation_key ≡ ""
      → P.was_deleted s.obj.meta ≡ false
      → r.resource_exists ≡ true
      → r.resource_up_to_date ≡ true
  unfolding ◌>>=◌ observe observe_state observe_external has_last_operation
  observe-hides_plan_change r other observed no_key alive exists =
      elim (Fallible-cases (build_get_instance_request P s.obj)) [
        | inl (e, refused) ↦ ground (arith, eq_iff s.obj.at_provider.last_operation_key "")
        | inr (req, built) ↦ elim (Reply-cases (w.get_instance (length s.calls) req)) [
          | inl (e, failed) ↦ ground (arith, eq_iff s.obj.at_provider.last_operation_key "")
          | inr (a, answered) ↦ elim (Option-cases a) [
            | inl nil ↦ ground (arith, eq_iff s.obj.at_provider.last_operation_key "")
            | inr (got, given) ↦
                let hidden : compare_spec_with_osb P s.obj (some got) ≡ done nothing_to_do =
                  plan_change_hides P s.obj got
                    (other (length s.calls) req got (answered ∙ ap answer given)) in
                ground (arith, eq_iff s.obj.at_provider.last_operation_key "", hidden)
          ]
        ]
      ]
