-- ===== src/Errors/OfControllers.antt =====
-- The error variables of internal/controller/servicebinding/servicebinding.go and
-- internal/controller/serviceinstance/serviceinstance.go, in the order of its `var` block,
-- and the text that each is made with.
use provider_osb.Base.{String}

pub data BindingControllerError : Type 0 where
  not_service_binding_cr : BindingControllerError
  cannot_register_mr_state_recorder : BindingControllerError
  cannot_track_provider_config : BindingControllerError
  cannot_get_credentials : BindingControllerError
  cannot_create_new_osb_client : BindingControllerError
  cannot_make_originating_identity : BindingControllerError
  osb_rotating_request_failed : BindingControllerError
  extract_creds_failed : BindingControllerError
  create_resp_data_failed : BindingControllerError
  update_status_failed : BindingControllerError
  failed_to_bind_service_binding : BindingControllerError
  failed_to_un_bind_service_binding : BindingControllerError
  failed_to_observe_state : BindingControllerError

-- The text given to `errors.New`.
unfoldable pub binding_controller_message : BindingControllerError → String
binding_controller_message BindingControllerError.not_service_binding_cr =
    "managed resource is not a ServiceBinding custom resource"
binding_controller_message BindingControllerError.cannot_register_mr_state_recorder =
    "cannot register MR state metrics recorder for kind"
binding_controller_message BindingControllerError.cannot_track_provider_config =
    "cannot track ProviderConfig usage"
binding_controller_message BindingControllerError.cannot_get_credentials = "cannot get credentials"
binding_controller_message BindingControllerError.cannot_create_new_osb_client =
    "cannot create new OSB client"
binding_controller_message BindingControllerError.cannot_make_originating_identity =
    "cannot make originating identity from value"
binding_controller_message BindingControllerError.osb_rotating_request_failed =
    "OSB RotateBinding request failed"
binding_controller_message BindingControllerError.extract_creds_failed =
    "failed to extract credentials from OSB response"
binding_controller_message BindingControllerError.create_resp_data_failed =
    "failed to create response data with binding parameters"
binding_controller_message BindingControllerError.update_status_failed =
    "failed to update binding status"
binding_controller_message BindingControllerError.failed_to_bind_service_binding =
    "failed to bind service binding"
binding_controller_message BindingControllerError.failed_to_un_bind_service_binding =
    "failed to unbind service binding"
binding_controller_message BindingControllerError.failed_to_observe_state =
    "failed to observe state of service binding"

pub data InstanceControllerError : Type 0 where
  not_service_instance_cr : InstanceControllerError
  cannot_track_provider_config : InstanceControllerError
  cannot_create_new_osb_client : InstanceControllerError
  cannot_make_originating_identity : InstanceControllerError
  instance_id_not_set : InstanceControllerError
  cannot_track_provider_config_usage : InstanceControllerError
  failed_to_deprovision : InstanceControllerError
  failed_to_provision : InstanceControllerError
  failed_to_update : InstanceControllerError
  failed_to_observe_state : InstanceControllerError

-- The text given to `errors.New`.
unfoldable pub instance_controller_message : InstanceControllerError → String
instance_controller_message InstanceControllerError.not_service_instance_cr =
    "managed resource is not a ServiceInstance custom resource"
instance_controller_message InstanceControllerError.cannot_track_provider_config =
    "cannot track ProviderConfig usage"
instance_controller_message InstanceControllerError.cannot_create_new_osb_client =
    "cannot create new OSB client"
instance_controller_message InstanceControllerError.cannot_make_originating_identity =
    "cannot make originating identity from value"
instance_controller_message InstanceControllerError.instance_id_not_set =
    "InstanceId must be set in the ServiceInstance spec"
instance_controller_message InstanceControllerError.cannot_track_provider_config_usage =
    "cannot track ProviderConfig usage"
instance_controller_message InstanceControllerError.failed_to_deprovision =
    "failed to deprovision service instance"
instance_controller_message InstanceControllerError.failed_to_provision =
    "failed to provison service instance"
instance_controller_message InstanceControllerError.failed_to_update =
    "failed to update service instance"
instance_controller_message InstanceControllerError.failed_to_observe_state =
    "failed to observe state of service instance"
