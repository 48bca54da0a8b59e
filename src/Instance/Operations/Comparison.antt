-- ===== src/Instance/Operations/Comparison.antt =====
-- When the comparison of a service instance with the broker asks for an update.
use provider_osb.Base.{true, false, ◌≡◌, ◌≢◌, ◌↔◌, ◌⊎◌, some, arith, eq_iff}
use provider_osb.Errors.{done}
use provider_osb.Json.{GoMap, deep_equal_maps}
use provider_osb.Common.{nothing_to_do, need_to_update, contexts_equal}
use provider_osb.Common.Serial.{to_parameters}
use provider_osb.Osb.{GetInstanceResponse}
use provider_osb.Platform.{Platform}
use provider_osb.Instance.{ServiceInstance}
use provider_osb.Instance.Operations.{compare_spec_with_osb}

module _ (P : Platform) (si : ServiceInstance P) (r : GetInstanceResponse) where
  open si use {for_provider as spec, at_provider}

  -- The plan of the spec is not the one that the broker reports.
  abbrev pub PlanDiffers : Type 0
  PlanDiffers = (spec.plan_id ≢ "") × (spec.plan_id ≢ r.plan_id)

  -- The parameters of the spec are empty, or are read as another map than the broker's.
  abbrev pub ParametersDiffer : Type 0
  ParametersDiffer =
      (spec.parameters ≡ "")
      ⊎ ((m : GoMap) × (to_parameters P spec.parameters ≡ done m)
          × (deep_equal_maps m r.parameters ≡ false))

  abbrev pub ParametersAgree : Type 0
  ParametersAgree =
      (spec.parameters ≢ "")
      × ((m : GoMap) × (to_parameters P spec.parameters ≡ done m)
          × (deep_equal_maps m r.parameters ≡ true))

  abbrev pub NeedsUpdate : Type 0
  NeedsUpdate =
      ¬ PlanDiffers
      × (ParametersDiffer
          ⊎ (ParametersAgree × (contexts_equal spec.context at_provider.context ≡ false)))

  need_to_update-only_if : compare_spec_with_osb P si (some r) ≡ done need_to_update → NeedsUpdate
  unfolding compare_spec_with_osb
  need_to_update-only_if h =
      ground
        (arith, eq_iff spec.plan_id "", eq_iff spec.plan_id r.plan_id, eq_iff spec.parameters "")

  need_to_update-if : NeedsUpdate → compare_spec_with_osb P si (some r) ≡ done need_to_update
  unfolding compare_spec_with_osb
  need_to_update-if h =
      ground
        (arith, eq_iff spec.plan_id "", eq_iff spec.plan_id r.plan_id, eq_iff spec.parameters "")

  -- The comparison asks for an update exactly if the spec names no plan or the broker's, and either
  -- the parameters of the spec are empty or read as another map than the broker's, or they are read
  -- as the broker's and the context of the spec is not the one that the status remembers.
  pub need_to_update_iff : (compare_spec_with_osb P si (some r) ≡ done need_to_update) ↔ NeedsUpdate
  need_to_update_iff = (need_to_update-only_if, need_to_update-if)

  -- A plan that differs from the broker's is reported as nothing to do, whatever else differs.
  pub plan_change_hides : PlanDiffers → compare_spec_with_osb P si (some r) ≡ done nothing_to_do
  unfolding compare_spec_with_osb
  plan_change_hides h = ground (arith, eq_iff spec.plan_id "", eq_iff spec.plan_id r.plan_id)
