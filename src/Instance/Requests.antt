-- ===== src/Instance/Requests.antt =====
-- The requests that apis/instance/v1alpha1/serviceinstance_methods.go builds.
pub mod Exact
use provider_osb.Base.{String, Bool, not, Option, none, some, is_empty, if◌then◌else◌}
use provider_osb.Errors.{
  Error, sentinel, wrap, Sentinel, InstanceError, of_instance, Fallible, done, fail, ◌>>=◌, ◌>>◌,
}
use provider_osb.Json.{GoMap, is_empty_map}
use provider_osb.Osb.{
  OriginatingIdentity, ProvisionRequest, UpdateInstanceRequest, DeprovisionRequest,
  LastOperationRequest, GetInstanceRequest,
}
use provider_osb.Common.Serial.{to_parameters, to_map}
use provider_osb.Platform.{Platform}
use provider_osb.Instance.{ServiceInstance}

-- `if c { return …, e }`
abbrev pub refuse_if : Bool → InstanceError → Fallible (Unit {0})
refuse_if c e = if c then fail (sentinel (of_instance e)) else done tt

-- `if err != nil { return …, fmt.Errorf("%w: %s", e, fmt.Sprint(err)) }`
abbrev pub wrap_failure : {A : Type 0} → InstanceError → Fallible A → Fallible A
wrap_failure e (done a) = done a
wrap_failure e (fail cause) = fail (wrap (of_instance e) cause)

-- `if s != "" { p = &s }`
abbrev pub pointer_if_set : String → Option String
pointer_if_set s = if is_empty s then none else some s

-- `if len(m) > 0 { f = m }`
abbrev pub map_if_filled : GoMap → GoMap
map_if_filled m = if is_empty_map m then none else m

module _ (P : Platform) (si : ServiceInstance P) where
  open si use {for_provider as spec, at_provider}

  unfoldable pub build_provision_request : GoMap → GoMap → Bool → Fallible ProvisionRequest
  unfolding is_empty_map
  build_provision_request params ctx_map disable_async = do
    refuse_if (is_empty spec.instance_id) InstanceError.instance_id_is_empty
    refuse_if (is_empty spec.plan_id) InstanceError.plan_id_empty
    refuse_if (is_empty spec.service_id) InstanceError.service_id_empty
    refuse_if (is_empty spec.organization_guid) InstanceError.organization_guid_empty
    refuse_if (is_empty spec.space_guid) InstanceError.space_guid_empty
    refuse_if (is_empty_map ctx_map) InstanceError.ctx_map_empty
    done (record {
      instance_id = spec.instance_id;
      service_id = spec.service_id;
      plan_id = spec.plan_id;
      organization_guid = spec.organization_guid;
      space_guid = spec.space_guid;
      accepts_incomplete = not disable_async;
      context = ctx_map;
      parameters = params;
    })

  unfoldable pub build_update_instance_request :
      OriginatingIdentity → Bool → Fallible UpdateInstanceRequest
  unfolding to_parameters to_map is_empty_map
  build_update_instance_request oid disable_async = do
    params ←
        wrap_failure InstanceError.failed_to_marshall_service_instance_parameters
          (to_parameters P spec.parameters)
    ctx_map ←
        wrap_failure InstanceError.failed_to_marshall_service_instance_context
          (to_map P spec.context)
    refuse_if (is_empty spec.instance_id) InstanceError.instance_id_is_empty
    refuse_if (is_empty spec.service_id) InstanceError.service_id_empty
    refuse_if (is_empty oid.platform) InstanceError.oid_platform_is_empty
    refuse_if (is_empty oid.value) InstanceError.oid_value_is_empty
    done (record {
      instance_id = spec.instance_id;
      service_id = spec.service_id;
      accepts_incomplete = not disable_async;
      originating_identity = oid;
      plan_id = pointer_if_set spec.plan_id;
      context = map_if_filled ctx_map;
      parameters = params;
    })

  unfoldable pub build_poll_last_operation_request :
      OriginatingIdentity → Fallible LastOperationRequest
  build_poll_last_operation_request oid = do
    refuse_if (is_empty spec.instance_id) InstanceError.instance_id_is_empty
    refuse_if (is_empty oid.platform) InstanceError.oid_platform_is_empty
    refuse_if (is_empty oid.value) InstanceError.oid_value_is_empty
    done (record {
      instance_id = spec.instance_id;
      originating_identity = oid;
      service_id = pointer_if_set spec.service_id;
      plan_id = pointer_if_set spec.plan_id;
      operation_key = pointer_if_set at_provider.last_operation_key;
    })

  unfoldable pub build_deprovision_request :
      OriginatingIdentity → Bool → Fallible DeprovisionRequest
  build_deprovision_request oid disable_async = do
    refuse_if (is_empty spec.instance_id) InstanceError.instance_id_is_empty
    refuse_if (is_empty spec.service_id) InstanceError.service_id_empty
    refuse_if (is_empty spec.plan_id) InstanceError.plan_id_empty
    refuse_if (is_empty oid.platform) InstanceError.oid_platform_is_empty
    refuse_if (is_empty oid.value) InstanceError.oid_value_is_empty
    done (record {
      instance_id = spec.instance_id;
      service_id = spec.service_id;
      plan_id = spec.plan_id;
      accepts_incomplete = not disable_async;
      originating_identity = oid;
    })

  unfoldable pub build_get_instance_request : Fallible GetInstanceRequest
  build_get_instance_request = do
    refuse_if (is_empty spec.instance_id) InstanceError.instance_id_is_empty
    done (record {
      instance_id = spec.instance_id;
      service_id = spec.service_id;
      plan_id = spec.plan_id;
    })
