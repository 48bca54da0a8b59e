-- ===== src/Instance/Operations/Settled.antt =====
-- An instance settles: what was provisioned as the spec says is not updated again.
use provider_osb.Base.{true, ◌≡◌, ◌≢◌, some, arith, eq_iff}
use provider_osb.Errors.{done}
use provider_osb.Json.{Fields, object}
use provider_osb.Json.Reflexive.{well_keyed, deep_equal_maps_refl}
use provider_osb.Json.StringMap.Reflexive.{distinct_map, string_maps_equal_refl}
use provider_osb.Common.{KubernetesOsbContext, contexts_equal, nothing_to_do}
use provider_osb.Common.Serial.{to_parameters}
use provider_osb.Osb.{AsyncResponse, GetInstanceResponse}
use provider_osb.Platform.{Platform}
use provider_osb.Instance.{ServiceInstance, update_status_from_osb}
use provider_osb.Instance.Operations.{compare_spec_with_osb}

-- No key stands twice in the two maps of a context.
pub record IsContext (c : KubernetesOsbContext) : Type 0 where
  pub namespace_annotations : distinct_map c.namespace_annotations ≡ true
  pub instance_annotations : distinct_map c.instance_annotations ≡ true

contexts_equal_refl : (c : KubernetesOsbContext) → IsContext c → contexts_equal c c ≡ true
unfolding contexts_equal
contexts_equal_refl c h = ground (
  arith,
  eq_iff c.platform c.platform,
  eq_iff c.namespace c.namespace,
  eq_iff c.cluster_id c.cluster_id,
  eq_iff c.instance_name c.instance_name,
  string_maps_equal_refl c.namespace_annotations h.namespace_annotations,
  string_maps_equal_refl c.instance_annotations h.instance_annotations,
)

-- An instance whose status was written from a response to a provision or an update needs nothing,
-- if the broker reports the plan of its spec and the parameters that its spec is read as, the
-- parameters are not the empty text, and no key stands twice in a map.
pub compare_spec_with_osb-settled :
    (P : Platform) (si : ServiceInstance P) (resp : AsyncResponse) (got : GetInstanceResponse)
    (m : Fields)
    → IsContext si.for_provider.context
    → well_keyed (object m) ≡ true
    → si.for_provider.parameters ≢ ""
    → to_parameters P si.for_provider.parameters ≡ done (some m)
    → got.plan_id ≡ si.for_provider.plan_id
    → got.parameters ≡ some m
    → compare_spec_with_osb P (update_status_from_osb P resp si) (some got) ≡ done nothing_to_do
unfolding compare_spec_with_osb update_status_from_osb
compare_spec_with_osb-settled P si resp got m context keyed filled read plan parameters = ground (
  arith,
  eq_iff si.for_provider.plan_id got.plan_id,
  eq_iff si.for_provider.parameters "",
  deep_equal_maps_refl m keyed,
  contexts_equal_refl si.for_provider.context context,
)
