-- ===== src/Binding/Requests.antt =====
-- The requests that apis/binding/v1alpha1/servicebinding_methods.go builds.
pub mod Agreement
use provider_osb.Base.{String, Bool, true, none, some, is_empty, if◌then◌else◌}
use provider_osb.Errors.{sentinel, BindingError, of_binding, Fallible, done, fail, ◌>>◌}
use provider_osb.Json.{GoMap}
use provider_osb.Osb.{
  OriginatingIdentity, BindRequest, UnbindRequest, RotateBindingRequest, GetBindingRequest,
  BindingLastOperationRequest,
}
use provider_osb.Platform.{Platform}
use provider_osb.Binding.{ServiceBinding, ServiceBindingParameters, get_external_name}

-- `if c { return …, e }`
abbrev pub refuse_if : Bool → BindingError → Fallible (Unit {0})
refuse_if c e = if c then fail (sentinel (of_binding e)) else done tt

unfoldable pub validate_inputs :
    ServiceBindingParameters → OriginatingIdentity → Fallible (Unit {0})
validate_inputs binding_params oid = do
  refuse_if (is_empty oid.platform) BindingError.oid_platform_is_empty
  refuse_if (is_empty oid.value) BindingError.oid_value_is_empty
  refuse_if (is_empty binding_params.instance_id) BindingError.instance_id_is_empty
  refuse_if (is_empty binding_params.plan_id) BindingError.plan_id_empty
  refuse_if (is_empty binding_params.service_id) BindingError.service_id_empty

module _ (P : Platform) (sb : ServiceBinding P) where
  open sb use {for_provider as spec, at_provider}

  unfoldable pub build_get_binding_request : Fallible GetBindingRequest
  unfolding get_external_name
  build_get_binding_request = do
    refuse_if (is_empty spec.instance_id) BindingError.instance_id_is_empty
    refuse_if (is_empty (get_external_name P sb)) BindingError.binding_id_empty
    done (record { instance_id = spec.instance_id; binding_id = get_external_name P sb })

  unfoldable pub build_rotate_binding_request :
      OriginatingIdentity → String → Fallible RotateBindingRequest
  unfolding get_external_name
  build_rotate_binding_request oid new_uuid = do
    refuse_if (is_empty oid.platform) BindingError.oid_platform_is_empty
    refuse_if (is_empty oid.value) BindingError.oid_value_is_empty
    refuse_if (is_empty spec.instance_id) BindingError.instance_id_is_empty
    refuse_if (is_empty (get_external_name P sb)) BindingError.binding_id_empty
    refuse_if (is_empty new_uuid) BindingError.new_binding_uuid_empty
    done (record {
      instance_id = spec.instance_id;
      binding_id = new_uuid;
      accepts_incomplete = true;
      predecessor_binding_id = get_external_name P sb;
      originating_identity = oid;
    })

  unfoldable pub build_unbind_request : OriginatingIdentity → Fallible UnbindRequest
  unfolding get_external_name
  build_unbind_request oid = do
    refuse_if (is_empty oid.platform) BindingError.oid_platform_is_empty
    refuse_if (is_empty oid.value) BindingError.oid_value_is_empty
    refuse_if (is_empty spec.instance_id) BindingError.instance_id_is_empty
    refuse_if (is_empty spec.plan_id) BindingError.plan_id_empty
    refuse_if (is_empty spec.service_id) BindingError.service_id_empty
    refuse_if (is_empty (get_external_name P sb)) BindingError.binding_id_empty
    done (record {
      instance_id = spec.instance_id;
      binding_id = get_external_name P sb;
      accepts_incomplete = true;
      service_id = spec.service_id;
      plan_id = spec.plan_id;
      originating_identity = oid;
    })

  unfoldable pub build_binding_last_operation_request :
      OriginatingIdentity → Fallible BindingLastOperationRequest
  unfolding get_external_name
  build_binding_last_operation_request oid = do
    refuse_if (is_empty oid.platform) BindingError.oid_platform_is_empty
    refuse_if (is_empty oid.value) BindingError.oid_value_is_empty
    refuse_if (is_empty spec.instance_id) BindingError.instance_id_is_empty
    refuse_if (is_empty spec.plan_id) BindingError.plan_id_empty
    refuse_if (is_empty spec.service_id) BindingError.service_id_empty
    refuse_if (is_empty (get_external_name P sb)) BindingError.binding_id_empty
    done (record {
      instance_id = spec.instance_id;
      binding_id = get_external_name P sb;
      service_id = some spec.service_id;
      plan_id = some spec.plan_id;
      originating_identity = oid;
      operation_key = some at_provider.last_operation_key;
    })

  -- `addBindResource`
  unfoldable pub add_bind_resource : BindRequest → BindRequest
  add_bind_resource r =
      if is_empty spec.app_guid
      then record r {
        bind_resource = some (record { app_guid = none; route = some spec.bind_resource.route });
      }
      else record r {
        app_guid = some spec.app_guid;
        bind_resource =
            some (record { app_guid = some spec.app_guid; route = some spec.bind_resource.route });
      }

-- `if m != nil { f = m }`
abbrev map_or_keep : GoMap → GoMap → GoMap
map_or_keep none old = old
map_or_keep (some m) old = some m

-- `addContextAndParams`
unfoldable pub add_context_and_params : GoMap → GoMap → BindRequest → BindRequest
add_context_and_params ctx_map params r = record r {
  context = map_or_keep ctx_map r.context;
  parameters = map_or_keep params r.parameters;
}
