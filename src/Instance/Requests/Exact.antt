-- ===== src/Instance/Requests/Exact.antt =====
-- Each builder of a request either fills the request from the resource, or names a field that is
-- empty.
use provider_osb.Base.{Bool, not, ◌≡◌, ◌≢◌, arith, eq_iff, true}
use provider_osb.Errors.{sentinel, InstanceError, of_instance, Fallible, done, fail}
use provider_osb.Json.{GoMap, is_empty_map}
use provider_osb.Osb.{OriginatingIdentity, ProvisionRequest}
use provider_osb.Platform.{Platform}
use provider_osb.Instance.{ServiceInstance}
use provider_osb.Instance.Requests.{build_provision_request}

module _ (P : Platform) (si : ServiceInstance P) where
  open si use {for_provider as spec}

  -- The field that an error says is empty.
  abbrev pub Missing : GoMap → OriginatingIdentity → InstanceError → Type 0
  Missing ctx_map oid InstanceError.instance_id_is_empty = spec.instance_id ≡ ""
  Missing ctx_map oid InstanceError.plan_id_empty = spec.plan_id ≡ ""
  Missing ctx_map oid InstanceError.service_id_empty = spec.service_id ≡ ""
  Missing ctx_map oid InstanceError.organization_guid_empty = spec.organization_guid ≡ ""
  Missing ctx_map oid InstanceError.space_guid_empty = spec.space_guid ≡ ""
  Missing ctx_map oid InstanceError.ctx_map_empty = is_empty_map ctx_map ≡ true
  Missing ctx_map oid InstanceError.oid_platform_is_empty = oid.platform ≡ ""
  Missing ctx_map oid InstanceError.oid_value_is_empty = oid.value ≡ ""
  Missing ctx_map oid _ = ⊥

  pub record IsProvisionRequest (params ctx_map : GoMap) (disable_async : Bool)
      (r : ProvisionRequest) : Type 0 where
    pub instance_id : (r.instance_id ≡ spec.instance_id) × (spec.instance_id ≢ "")
    pub plan_id : (r.plan_id ≡ spec.plan_id) × (spec.plan_id ≢ "")
    pub service_id : (r.service_id ≡ spec.service_id) × (spec.service_id ≢ "")
    pub organization_guid :
        (r.organization_guid ≡ spec.organization_guid) × (spec.organization_guid ≢ "")
    pub space_guid : (r.space_guid ≡ spec.space_guid) × (spec.space_guid ≢ "")
    pub context : (r.context ≡ ctx_map) × (is_empty_map ctx_map ≢ true)
    pub parameters : r.parameters ≡ params
    pub accepts_incomplete : r.accepts_incomplete ≡ not disable_async

  abbrev pub Outcome : {R : Type 0} → (R → Type 0) → (InstanceError → Type 0) → Fallible R → Type 0
  Outcome Good Bad (done r) = Good r
  Outcome Good Bad (fail e) = (x : InstanceError) × (e ≡ sentinel (of_instance x)) × Bad x

  -- Building a provision request succeeds with a request whose fields are those of the spec, none
  -- of them empty, with the context, the parameters and the asynchrony it was given; or it fails
  -- with the error of a field of the spec, or of the context, that is empty.
  pub build_provision_request_exact :
      (params ctx_map : GoMap) (disable_async : Bool) (oid : OriginatingIdentity)
      → Outcome
          (IsProvisionRequest params ctx_map disable_async)
          (Missing ctx_map oid)
          (build_provision_request P si params ctx_map disable_async)
  unfolding build_provision_request
  build_provision_request_exact params ctx_map disable_async oid = ground (
    arith,
    eq_iff spec.instance_id "",
    eq_iff spec.plan_id "",
    eq_iff spec.service_id "",
    eq_iff spec.organization_guid "",
    eq_iff spec.space_guid "",
  )
