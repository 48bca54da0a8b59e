-- ===== src/Errors/OfBinding.antt =====
-- The error variables of apis/binding/v1alpha1/servicebinding_methods.go, in the order of its `var` block,
-- and the text that each is made with.
use provider_osb.Base.{String}

pub data BindingError : Type 0 where
  marshal_parameters : BindingError
  marshal_endpoints : BindingError
  marshal_volume_mounts : BindingError
  failed_to_parse_from_binding_status : BindingError
  failed_to_parse_status_parameters : BindingError
  failed_to_parse_spec_paramaters : BindingError
  failed_to_marshal_credential : BindingError
  failed_request_osb_rotate_binding : BindingError
  failed_marshalling_context_from_service_binding : BindingError
  failed_un_marshalling_request_context : BindingError
  failed_un_marshalling_request_params : BindingError
  status_parameters_is_empty : BindingError
  instance_id_is_empty : BindingError
  plan_id_empty : BindingError
  oid_platform_is_empty : BindingError
  oid_value_is_empty : BindingError
  service_id_empty : BindingError
  binding_id_empty : BindingError
  new_binding_uuid_empty : BindingError
  failed_to_build_rotate_binding_request : BindingError
  failed_to_build_bind_request : BindingError
  convert_binding_spec_failed : BindingError
  osb_bind_request_failed : BindingError
  osb_bindong_id_is_nil : BindingError
  osb_unbind_request_failed : BindingError
  osb_unbind_nil_response : BindingError
  add_async_deletion_finalizer : BindingError
  failed_to_build_unbind_request : BindingError
  failed_to_handle_bind_request : BindingError
  technical_encountered : BindingError
  failed_to_build_binding_last_operation_request : BindingError
  osb_poll_binding_last_operation_request_failed : BindingError
  failed_to_build_get_binding_request : BindingError
  nil_binding_response : BindingError
  failed_to_get_lastest_kube_object : BindingError
  update_binding_status : BindingError
  marshal_credentials : BindingError
  failed_to_handle_renewal_bindings : BindingError
  status_spec_compare_failed : BindingError
  status_spec_mismatch : BindingError
  cannot_handle_unknow_action : BindingError

-- The text given to `errors.New`.
unfoldable pub binding_message : BindingError → String
binding_message BindingError.marshal_parameters =
    "failed to marshal or parse binding parameters from osb response"
binding_message BindingError.marshal_endpoints =
    "failed to marshal or parse binding endpoints from osb response"
binding_message BindingError.marshal_volume_mounts =
    "failed to marshal or parse binding volume mounts binding from osb response"
binding_message BindingError.failed_to_parse_from_binding_status =
    "failed to parse parameters from binding status"
binding_message BindingError.failed_to_parse_status_parameters =
    "failed to parse Status.AtProvider.Parameters JSON"
binding_message BindingError.failed_to_parse_spec_paramaters =
    "failed to parse Spec.ForProvider.Parameters JSON"
binding_message BindingError.failed_to_marshal_credential = "failed to marshal credential"
binding_message BindingError.failed_request_osb_rotate_binding = "failed to marshal credential"
binding_message BindingError.failed_marshalling_context_from_service_binding =
    "failed to marshalling sb.Spec.ForProvider.Context"
binding_message BindingError.failed_un_marshalling_request_context =
    "failed to unmarshalling request context from ServiceBinding"
binding_message BindingError.failed_un_marshalling_request_params =
    "failed to unmarshalling request parameters from ServiceBinding"
binding_message BindingError.status_parameters_is_empty =
    "failed to unmarshalling status parameters is empty"
binding_message BindingError.instance_id_is_empty = "instanceID is empty"
binding_message BindingError.plan_id_empty = "planID is empty"
binding_message BindingError.oid_platform_is_empty = "oid platform is empty"
binding_message BindingError.oid_value_is_empty = "oid value is empty"
binding_message BindingError.service_id_empty = "serviceID is empty"
binding_message BindingError.binding_id_empty = "bindingID is empty"
binding_message BindingError.new_binding_uuid_empty = "new binding uuid is empty"
binding_message BindingError.failed_to_build_rotate_binding_request =
    "failed to build rotate binding request"
binding_message BindingError.failed_to_build_bind_request = "failed to build bind request"
binding_message BindingError.convert_binding_spec_failed = "failed to convert binding spec data"
binding_message BindingError.osb_bind_request_failed = "OSB Bind request failed"
binding_message BindingError.osb_bindong_id_is_nil =
    "OSB Bind request returned nil response for bindingID"
binding_message BindingError.osb_unbind_request_failed = "OSB Unbind request failed"
binding_message BindingError.osb_unbind_nil_response =
    "OSB Unbind returned nil response for request"
binding_message BindingError.add_async_deletion_finalizer = "failed to add async deletion finalizer"
binding_message BindingError.failed_to_build_unbind_request = "failed to build unbind request"
binding_message BindingError.failed_to_handle_bind_request = "failed to handle bind request"
binding_message BindingError.technical_encountered = "technical error encountered"
binding_message BindingError.failed_to_build_binding_last_operation_request =
    "failed to build binding last operation request"
binding_message BindingError.osb_poll_binding_last_operation_request_failed =
    "OSB PollBindingLastOperation request failed"
binding_message BindingError.failed_to_build_get_binding_request =
    "failed to build get binding request"
binding_message BindingError.nil_binding_response = "GetBindingResponse is nil for binding"
binding_message BindingError.failed_to_get_lastest_kube_object = "failed to get lastest kube object"
binding_message BindingError.update_binding_status = "failed to update binding status"
binding_message BindingError.marshal_credentials = "failed to marshal credentials from response"
binding_message BindingError.failed_to_handle_renewal_bindings = "failed to handle renewal bindings"
binding_message BindingError.status_spec_compare_failed =
    "failed to compare status and spec provider"
binding_message BindingError.status_spec_mismatch = "status and spec provider parameters differ"
binding_message BindingError.cannot_handle_unknow_action = "cannot handle unknown action"
