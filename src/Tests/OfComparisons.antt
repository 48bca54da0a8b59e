-- ===== src/Tests/OfComparisons.antt =====
-- Comparisons of an instance with the broker at which their properties are run.
use provider_osb.Base.{◌≡◌, ◌↔◌, some, [], ◌∷◌, refl, arith, eq_iff}
use provider_osb.Errors.{done}
use provider_osb.Json.{end, deep_equal, deep_equal_maps}
use provider_osb.Json.StringMap.{Entries, lookup}
use provider_osb.Json.StringMap.Reflexive.{distinct_map, distinct_entries}
use provider_osb.Common.{KubernetesOsbContext, nothing_to_do}
use provider_osb.Common.Serial.{to_parameters}
use provider_osb.Osb.{GetInstanceResponse}
use provider_osb.Instance.{ServiceInstance}
use provider_osb.Instance.Operations.{compare_spec_with_osb}
use provider_osb.Instance.Operations.Settled.{IsContext}
use provider_osb.Instance.Operations.Comparison.{ParametersAgree}
use provider_osb.Instance.Operations.Contexts.{SameContext, settled_iff-SameContext}
use provider_osb.Tests.{test_platform, test_context}
use provider_osb.Tests.OfInstances.{test_instance}

abbrev annotated : Entries → KubernetesOsbContext
annotated m = record test_context { namespace_annotations = some m }

-- The status remembers the annotations of the spec in another order.
abbrev reordered : ServiceInstance test_platform
reordered = record test_instance {
  for_provider = record test_instance.for_provider {
    context = annotated (("team", "a") ∷ ("tier", "b") ∷ []);
  };
  at_provider = record test_instance.at_provider {
    context = annotated (("tier", "b") ∷ ("team", "a") ∷ []);
  };
}

abbrev reported : GetInstanceResponse
reported = record { plan_id = "plan"; dashboard_url = "url"; parameters = some end }

spec-IsContext : IsContext reordered.for_provider.context
unfolding distinct_map distinct_entries lookup
spec-IsContext = record { namespace_annotations = refl; instance_annotations = refl }

status-IsContext : IsContext reordered.at_provider.context
unfolding distinct_map distinct_entries lookup
status-IsContext = record { namespace_annotations = refl; instance_annotations = refl }

reported-ParametersAgree : ParametersAgree test_platform reordered reported
unfolding to_parameters deep_equal_maps deep_equal
reported-ParametersAgree = (ground (arith, eq_iff "{}" ""), (some end, refl, refl))

settled_iff-SameContext_example :
    (compare_spec_with_osb test_platform reordered (some reported) ≡ done nothing_to_do)
    ↔ SameContext reordered.for_provider.context reordered.at_provider.context
settled_iff-SameContext_example =
    settled_iff-SameContext test_platform reordered reported spec-IsContext status-IsContext
      (λ differs. differs.1 refl) reported-ParametersAgree
