-- ===== src/Instance/Operations/Contexts.antt =====
-- What a change of the context of the spec is.
use provider_osb.Base.{true, some, ◌≡◌, ◌↔◌, arith, eq_iff}
use provider_osb.Errors.{done}
use provider_osb.Json.StringMap.Extensional.{SameMap, string_maps_equal_iff}
use provider_osb.Common.{KubernetesOsbContext, contexts_equal, nothing_to_do}
use provider_osb.Osb.{GetInstanceResponse}
use provider_osb.Platform.{Platform}
use provider_osb.Instance.{ServiceInstance}
use provider_osb.Instance.Operations.{compare_spec_with_osb}
use provider_osb.Instance.Operations.Settled.{IsContext}
use provider_osb.Instance.Operations.Comparison.{PlanDiffers, ParametersAgree}

-- The same texts, and annotations that are nil in both or have the same value at each key.
pub record SameContext (a b : KubernetesOsbContext) : Type 0 where
  pub platform : a.platform ≡ b.platform
  pub namespace : a.namespace ≡ b.namespace
  pub namespace_annotations : SameMap a.namespace_annotations b.namespace_annotations
  pub instance_annotations : SameMap a.instance_annotations b.instance_annotations
  pub cluster_id : a.cluster_id ≡ b.cluster_id
  pub instance_name : a.instance_name ≡ b.instance_name

contexts_equal-only_if :
    (a b : KubernetesOsbContext)
    → IsContext a
    → IsContext b
    → contexts_equal a b ≡ true
    → SameContext a b
unfolding contexts_equal
contexts_equal-only_if a b d e h = record {
  platform = ground (arith, eq_iff a.platform b.platform);
  namespace = ground (arith, eq_iff a.namespace b.namespace);
  namespace_annotations =
      (string_maps_equal_iff a.namespace_annotations b.namespace_annotations d.namespace_annotations
          e.namespace_annotations).0
        (ground arith);
  instance_annotations =
      (string_maps_equal_iff a.instance_annotations b.instance_annotations d.instance_annotations
          e.instance_annotations).0
        (ground arith);
  cluster_id = ground (arith, eq_iff a.cluster_id b.cluster_id);
  instance_name = ground (arith, eq_iff a.instance_name b.instance_name);
}

contexts_equal-if :
    (a b : KubernetesOsbContext)
    → IsContext a
    → IsContext b
    → SameContext a b
    → contexts_equal a b ≡ true
unfolding contexts_equal
contexts_equal-if a b d e same =
    let namespaces =
      (string_maps_equal_iff a.namespace_annotations b.namespace_annotations d.namespace_annotations
          e.namespace_annotations).1
        same.namespace_annotations in
    let instances =
      (string_maps_equal_iff a.instance_annotations b.instance_annotations d.instance_annotations
          e.instance_annotations).1
        same.instance_annotations in
    ground (
      arith,
      same.platform,
      same.namespace,
      same.cluster_id,
      same.instance_name,
      eq_iff a.platform b.platform,
      eq_iff a.namespace b.namespace,
      eq_iff a.cluster_id b.cluster_id,
      eq_iff a.instance_name b.instance_name,
    )

module _ (P : Platform) (si : ServiceInstance P) (r : GetInstanceResponse) where
  open si use {for_provider as spec, at_provider}

  settled-only_if :
      ¬ PlanDiffers P si r
      → ParametersAgree P si r
      → compare_spec_with_osb P si (some r) ≡ done nothing_to_do
      → contexts_equal spec.context at_provider.context ≡ true
  unfolding compare_spec_with_osb
  settled-only_if same agree h =
      ground
        (arith, eq_iff spec.plan_id "", eq_iff spec.plan_id r.plan_id, eq_iff spec.parameters "")

  settled-if :
      ¬ PlanDiffers P si r
      → ParametersAgree P si r
      → contexts_equal spec.context at_provider.context ≡ true
      → compare_spec_with_osb P si (some r) ≡ done nothing_to_do
  unfolding compare_spec_with_osb
  settled-if same agree h =
      ground
        (arith, eq_iff spec.plan_id "", eq_iff spec.plan_id r.plan_id, eq_iff spec.parameters "")

  -- If the spec names no plan or the broker's, its parameters are read as the broker's, and no key
  -- stands twice in a map of the contexts of the spec and of the status, then the comparison asks for
  -- nothing exactly if these contexts are the same: equal texts, and annotations that are nil in both
  -- or have the same value at each key, in any order.
  pub settled_iff-SameContext :
      IsContext spec.context
      → IsContext at_provider.context
      → ¬ PlanDiffers P si r
      → ParametersAgree P si r
      → (compare_spec_with_osb P si (some r) ≡ done nothing_to_do)
        ↔ SameContext spec.context at_provider.context
  settled_iff-SameContext keyed remembered same agree = (
    λ h.
        contexts_equal-only_if spec.context at_provider.context keyed remembered
          (settled-only_if same agree h),
    λ h.
        settled-if same agree
          (contexts_equal-if spec.context at_provider.context keyed remembered h),
  )
