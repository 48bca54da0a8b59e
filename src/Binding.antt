-- ===== src/Binding.antt =====
-- apis/binding/v1alpha1: the ServiceBinding resource, its setters and tests, and the status that it
-- takes from a response.
pub mod StatusLaws
pub mod Texts
pub mod Requests
pub mod Renewal
pub mod Operations
use provider_osb.Base.{String, ◌<>◌, Bool, not, Option, none, some, ◌==◌, is_empty, if◌then◌else◌}
use provider_osb.Errors.{wrap, sentinel, BindingError, of_binding, Fallible, done, fail, ◌>>=◌}
use provider_osb.Json.{object, GoMap, deep_equal_maps}
use provider_osb.Config.{ProviderConfigReference}
use provider_osb.Common.{KubernetesOsbContext}
use provider_osb.Common.Serial.{map_value, context_fields, to_parameters}
use provider_osb.Osb.{LastOperationState, BindingMetadata, BindResponse, GetBindingResponse}
use provider_osb.Platform.{Platform, Condition}
use provider_osb.Util.{LastOperationStatusSetter, HandleAsyncStatusSetter}
use provider_osb.Util.Kube.{HasMeta}
use provider_osb.Instance.{is_in_progress}

-- The constants of servicebinding_methods.go; `util.MetadataPrefix` is "osb.provider.crossplane.io".
abbrev pub binding_metadata_prefix : String
binding_metadata_prefix = "binding.osb.provider.crossplane.io"

abbrev pub async_deletion_finalizer : String
async_deletion_finalizer = binding_metadata_prefix <> "/async-deletion"

pub record BindResource : Type 0 where
  pub app_guid : String
  pub route : String

pub record ServiceBindingParameters : Type 0 where
  pub app_guid : String
  pub instance_id : String
  pub plan_id : String
  pub service_id : String
  pub context : KubernetesOsbContext
  pub parameters : String
  pub bind_resource : BindResource

pub record ServiceBindingObservation : Type 0 where
  pub parameters : String
  pub route_service_url : Option String
  pub endpoints : String
  pub volume_mounts : String
  pub syslog_drain_url : Option String
  pub metadata : Option BindingMetadata
  pub last_operation_state : LastOperationState
  pub last_operation_key : String
  pub last_operation_description : String
  pub last_operation_polled_time : String

-- `metadata`, `spec.forProvider`, `spec.providerConfigRef`, the conditions of `status` and `status.atProvider`.
pub record ServiceBinding (P : Platform) : Type 0 where
  pub meta : P.ObjectMeta
  pub for_provider : ServiceBindingParameters
  pub provider_config_reference : Option ProviderConfigReference
  pub conditions : P.Conditions
  pub at_provider : ServiceBindingObservation

-- `responseData`
pub record ResponseData (P : Platform) : Type 0 where
  pub parameters : GoMap
  pub endpoints : Option P.Endpoints
  pub volume_mounts : Option P.VolumeMounts
  pub route_service_url : Option String
  pub syslog_drain_url : Option String
  pub metadata : Option BindingMetadata

-- `if err != nil { return …, fmt.Errorf("%w: %s", e, fmt.Sprint(err)) }`
abbrev pub wrap_failure : {A : Type 0} → BindingError → Fallible A → Fallible A
wrap_failure e (done a) = done a
wrap_failure e (fail cause) = fail (wrap (of_binding e) cause)

module _ (P : Platform) where
  abbrev pub meta_of : HasMeta P (ServiceBinding P)
  meta_of = record { get_meta = λ sb. sb.meta; set_meta = λ m sb. record sb { meta = m } }

  unfoldable pub set_conditions : Condition → ServiceBinding P → ServiceBinding P
  set_conditions c sb = record sb { conditions = P.set_conditions sb.conditions c }

  unfoldable pub set_last_operation_state : LastOperationState → ServiceBinding P → ServiceBinding P
  set_last_operation_state state sb = record sb {
    at_provider = record sb.at_provider { last_operation_state = state };
  }

  unfoldable pub set_last_operation_description : String → ServiceBinding P → ServiceBinding P
  set_last_operation_description desc sb = record sb {
    at_provider = record sb.at_provider { last_operation_description = desc };
  }

  unfoldable pub set_last_operation_key : String → ServiceBinding P → ServiceBinding P
  set_last_operation_key operation_key sb = record sb {
    at_provider = record sb.at_provider { last_operation_key = operation_key };
  }

  -- The methods behind `LastOperationStatusSetter` and `HandleAsyncStatusSetter`.
  unfoldable pub last_operation_status_setter : LastOperationStatusSetter (ServiceBinding P)
  unfolding set_conditions set_last_operation_state set_last_operation_description
  last_operation_status_setter = record {
    set_last_operation_state = set_last_operation_state;
    set_last_operation_description = set_last_operation_description;
    set_conditions = set_conditions;
  }

  unfoldable pub handle_async_status_setter : HandleAsyncStatusSetter (ServiceBinding P)
  unfolding set_last_operation_state set_last_operation_key
  handle_async_status_setter = record {
    set_last_operation_state = set_last_operation_state;
    set_last_operation_key = set_last_operation_key;
  }

  unfoldable pub is_state_in_progress : ServiceBinding P → Bool
  is_state_in_progress sb = is_in_progress sb.at_provider.last_operation_state

  unfoldable pub get_external_name : ServiceBinding P → String
  get_external_name sb = P.get_external_name sb.meta

  unfoldable pub is_external_name_empty : ServiceBinding P → Bool
  unfolding get_external_name
  is_external_name_empty sb = is_empty (get_external_name sb)

  unfoldable pub set_external_name : String → ServiceBinding P → ServiceBinding P
  set_external_name uuid sb = record sb { meta = P.set_external_name sb.meta uuid }

  -- `DeletionTimestamp.IsZero()`, of which `meta.WasDeleted` is the negation.
  unfoldable pub is_not_being_deleted : ServiceBinding P → Bool
  is_not_being_deleted sb = not (P.was_deleted sb.meta)

  unfoldable pub create_response_data :
      GetBindingResponse P.Endpoints P.VolumeMounts → ResponseData P
  create_response_data resp = record {
    parameters = resp.parameters;
    endpoints = resp.endpoints;
    volume_mounts = resp.volume_mounts;
    route_service_url = resp.route_service_url;
    syslog_drain_url = resp.syslog_drain_url;
    metadata = resp.metadata;
  }

  unfoldable pub create_response_data_with_binding_parameters :
      ServiceBinding P → BindResponse P.Endpoints P.VolumeMounts → Fallible (ResponseData P)
  unfolding to_parameters
  create_response_data_with_binding_parameters sb resp = do
    params ←
        wrap_failure BindingError.failed_to_parse_from_binding_status
          (to_parameters P sb.at_provider.parameters)
    done (record {
      parameters = params;
      endpoints = resp.endpoints;
      volume_mounts = resp.volume_mounts;
      route_service_url = resp.route_service_url;
      syslog_drain_url = resp.syslog_drain_url;
      metadata = resp.metadata;
    })

  -- `setAtProvider` never fails.
  unfoldable pub set_at_provider : ServiceBindingObservation → ServiceBinding P → ServiceBinding P
  set_at_provider observation sb = record sb { at_provider = observation }

  unfoldable pub set_response_data_in_status :
      ResponseData P → ServiceBinding P → Fallible (ServiceBinding P)
  unfolding set_at_provider map_value
  set_response_data_in_status response sb = do
    params ←
        wrap_failure BindingError.marshal_parameters
          (P.marshal_value (map_value response.parameters))
    endpoints ← wrap_failure BindingError.marshal_endpoints (P.marshal_endpoints response.endpoints)
    volume_mounts ←
        wrap_failure BindingError.marshal_volume_mounts
          (P.marshal_volume_mounts response.volume_mounts)
    done (
        set_at_provider
          (record {
            parameters = params;
            route_service_url = response.route_service_url;
            endpoints = endpoints;
            volume_mounts = volume_mounts;
            syslog_drain_url = response.syslog_drain_url;
            metadata = response.metadata;
            last_operation_state = sb.at_provider.last_operation_state;
            last_operation_key = sb.at_provider.last_operation_key;
            last_operation_description = sb.at_provider.last_operation_description;
            last_operation_polled_time = sb.at_provider.last_operation_polled_time;
          })
          sb)

  -- `UpdateBindingStatusFromResponse`, of a response that is not nil.
  unfoldable pub update_binding_status_from_response :
      GetBindingResponse P.Endpoints P.VolumeMounts → ServiceBinding P → Fallible (ServiceBinding P)
  unfolding create_response_data set_response_data_in_status
  update_binding_status_from_response resp = set_response_data_in_status (create_response_data resp)

  unfoldable pub is_status_parameters_empty : ServiceBinding P → Bool
  is_status_parameters_empty sb = is_empty sb.at_provider.parameters

  -- `IsStatusParametersNotLikeSpecParameters`
  unfoldable pub status_parameters_differ : ServiceBinding P → Fallible Bool
  unfolding is_status_parameters_empty
  status_parameters_differ sb =
      if is_status_parameters_empty sb
      then fail (sentinel (of_binding BindingError.status_parameters_is_empty))
      else do
        status_map ←
            wrap_failure BindingError.failed_to_parse_status_parameters
              (P.unmarshal_map sb.at_provider.parameters)
        spec_map ←
            wrap_failure BindingError.failed_to_parse_spec_paramaters
              (P.unmarshal_map sb.for_provider.parameters)
        done (not (deep_equal_maps status_map spec_map))

  -- `ConvertSpecsData`: the context and the parameters of the spec as maps.
  unfoldable pub convert_specs_data : ServiceBinding P → Fallible (GoMap × GoMap)
  convert_specs_data sb = do
    request_context_bytes ←
        wrap_failure BindingError.failed_marshalling_context_from_service_binding
          (P.marshal_value (object (context_fields sb.for_provider.context)))
    request_context ←
        wrap_failure BindingError.failed_un_marshalling_request_context
          (P.unmarshal_map request_context_bytes)
    request_params ←
        wrap_failure BindingError.failed_un_marshalling_request_params
          (P.unmarshal_map sb.for_provider.parameters)
    done (request_context, request_params)
