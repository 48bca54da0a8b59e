-- ===== src/Errors/OfInstance.antt =====
-- The error variables of apis/instance/v1alpha1/serviceinstance_methods.go, in the order of its `var` block,
-- and the text that each is made with.
use provider_osb.Base.{String}

pub data InstanceError : Type 0 where
  failed_to_parse_service_instance_parameters : InstanceError
  failed_to_marshall_service_instance_parameters : InstanceError
  failed_to_marshall_service_instance_context : InstanceError
  instance_id_is_empty : InstanceError
  plan_id_empty : InstanceError
  service_id_empty : InstanceError
  organization_guid_empty : InstanceError
  space_guid_empty : InstanceError
  ctx_map_empty : InstanceError
  oid_platform_is_empty : InstanceError
  oid_value_is_empty : InstanceError
  failed_to_build_poll_last_operation_request : InstanceError
  failed_to_build_deprovision_request : InstanceError
  osb_deprovision_instance_failed : InstanceError
  cannot_update_service_instance_status : InstanceError
  failed_to_get_lastest_kube_object : InstanceError
  osb_poll_last_operation_failed : InstanceError
  parse_parameters_failed : InstanceError
  cannot_delete_with_active_bindings : InstanceError
  parse_context_failed : InstanceError
  failed_to_build_provision_request : InstanceError
  osb_provision_instance_failed : InstanceError
  cannot_build_update_request : InstanceError
  osb_update_instance_failed : InstanceError
  failed_to_handle_last_operation_in_progress : InstanceError
  failed_to_handle_deletion_with_active_bindings : InstanceError
  osb_get_instance : InstanceError
  failed_to_compare_spec_with_osb : InstanceError
  failed_to_build_get_instance_request : InstanceError

-- The text given to `errors.New`.
unfoldable pub instance_message : InstanceError → String
instance_message InstanceError.failed_to_parse_service_instance_parameters =
    "error while marshalling or parsing parameters to bytes from ServiceInstance"
instance_message InstanceError.failed_to_marshall_service_instance_parameters =
    "failed to marshal ServiceInstance parameters"
instance_message InstanceError.failed_to_marshall_service_instance_context =
    "failed to marshal ServiceInstance context"
instance_message InstanceError.instance_id_is_empty = "instanceID is empty"
instance_message InstanceError.plan_id_empty = "planID is empty"
instance_message InstanceError.service_id_empty = "serviceID is empty"
instance_message InstanceError.organization_guid_empty = "organizationGuid is empty"
instance_message InstanceError.space_guid_empty = "spaceGuid is empty"
instance_message InstanceError.ctx_map_empty = "ctxMap is empty"
instance_message InstanceError.oid_platform_is_empty = "oid platform is empty"
instance_message InstanceError.oid_value_is_empty = "oid value is empty"
instance_message InstanceError.failed_to_build_poll_last_operation_request =
    "failed to build poll last operation request"
instance_message InstanceError.failed_to_build_deprovision_request =
    "failed to build deprovision request"
instance_message InstanceError.osb_deprovision_instance_failed =
    "OSB DeprovisionInstance request failed"
instance_message InstanceError.cannot_update_service_instance_status =
    "cannot update ServiceInstance status"
instance_message InstanceError.failed_to_get_lastest_kube_object =
    "failed to get latest kubernetes object"
instance_message InstanceError.osb_poll_last_operation_failed =
    "OSB PollLastOperation request failed"
instance_message InstanceError.parse_parameters_failed =
    "failed to parse ServiceInstance parameters"
instance_message InstanceError.cannot_delete_with_active_bindings =
    "cannot delete ServiceInstance, it has active bindings"
instance_message InstanceError.parse_context_failed = "failed to parse ServiceInstance context"
instance_message InstanceError.failed_to_build_provision_request =
    "failed to build provision request"
instance_message InstanceError.osb_provision_instance_failed =
    "OSB ProvisionInstance request failed"
instance_message InstanceError.cannot_build_update_request = "cannot build update request"
instance_message InstanceError.osb_update_instance_failed = "OSB UpdateInstance request failed"
instance_message InstanceError.failed_to_handle_last_operation_in_progress =
    "failed to handle last operation in progress"
instance_message InstanceError.failed_to_handle_deletion_with_active_bindings =
    "failed to handle deletion with active bindings"
instance_message InstanceError.osb_get_instance = "OSB GetInstance request failed"
instance_message InstanceError.failed_to_compare_spec_with_osb = "failed to compare spec with osb"
instance_message InstanceError.failed_to_build_get_instance_request =
    "failed to build get instance request"
