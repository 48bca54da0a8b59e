-- ===== src/Tests/OfInstances.antt =====
-- Instances at which the properties of the service instance are run.
use provider_osb.Base.{true, false, ◌≡◌, ◌≢◌, ◌↔◌, ◌⊎◌, none, some, [], ◌∷◌, refl, arith, eq_iff}
use provider_osb.Errors.{done}
use provider_osb.Json.Reflexive.{well_keyed}
use provider_osb.Json.StringMap.Reflexive.{distinct_map}
use provider_osb.Common.Serial.{to_parameters}
use provider_osb.Json.{object, field, end, text}
use provider_osb.Common.{nothing_to_do, need_to_update, InstanceData}
use provider_osb.Osb.{answer, in_progress, GetInstanceResponse, AsyncResponse}
use provider_osb.Platform.{World}
use provider_osb.Exec.{Session, ok, panic, ◌>>=◌}
use provider_osb.Instance.{
  ServiceInstance, ServiceInstanceObservation, update_status_from_osb, has_last_operation,
  is_deletable,
}
use provider_osb.Instance.Requests.{
  build_get_instance_request, build_update_instance_request, build_poll_last_operation_request,
  build_deprovision_request,
}
use provider_osb.Instance.Operations.{
  compare_spec_with_osb, observe_external, deprovision, provision, request_deprovision,
  observe_state, update, handle_last_operation_in_progress,
}
use provider_osb.Instance.Operations.Comparison.{NeedsUpdate, need_to_update_iff}
use provider_osb.Instance.Operations.Deletion.{SendsAtMostOne, deprovision-SendsAtMostOne}
use provider_osb.Instance.Operations.Panics.{PollsAnswered}
use provider_osb.Instance.Operations.StickyKey.{KeepsKeys}
use provider_osb.Util.Kube.{get_latest_kube_object}
use provider_osb.Instance.Operations.Saving.{SavesAnswer, provision-SavesAnswer}
use provider_osb.Instance.Operations.Settled.{IsContext, compare_spec_with_osb-settled}
use provider_osb.Controller.{ExternalObservation, no_observation}
use provider_osb.Controller.Instance.Deletion.{DeletesLater, delete-completes}
use provider_osb.Controller.Instance.{External, observe, delete}
use provider_osb.Controller.Instance.PlanChange.{ReportsOtherPlan, observe-hides_plan_change}
use provider_osb.Controller.Instance.Panics.{observe-ne-panic}
use provider_osb.Controller.Instance.StickyKey.{updating, observing, run_all, no_update_after_key}
use provider_osb.Tests.{test_platform, test_world, test_context, test_identity, test_reference}

abbrev pub instance_world : World test_platform (ServiceInstance test_platform)
instance_world = test_world (ServiceInstance test_platform)

abbrev test_spec : InstanceData
test_spec = record {
  app_guid = "app";
  instance_id = "id";
  plan_id = "plan";
  service_id = "service";
  context = test_context;
  parameters = "{}";
  organization_guid = "organization";
  space_guid = "space";
}

abbrev test_observation : ServiceInstanceObservation
test_observation = record {
  app_guid = "app";
  instance_id = "id";
  plan_id = "plan";
  service_id = "service";
  context = test_context;
  parameters = "{}";
  organization_guid = "organization";
  space_guid = "space";
  dashboard_url = none;
  last_operation_state = in_progress;
  last_operation_key = "key";
  last_operation_description = "";
  has_active_bindings = false;
}

abbrev pub test_instance : ServiceInstance test_platform
test_instance = record {
  meta = record { external_name = "id"; deleted = false; finalizers = λ f. false };
  for_provider = test_spec;
  provider_config_reference = some test_reference;
  conditions = [];
  at_provider = test_observation;
}

abbrev pub instance_session : Session (ServiceInstance test_platform)
instance_session = record { obj = test_instance; calls = [] }

abbrev pub test_external : External
test_external = record { originating_identity = test_identity; disable_async = false }

abbrev up_to_date : ExternalObservation
up_to_date = record {
  resource_exists = true;
  resource_up_to_date = true;
  connection_details = none;
}

instance_world-KeepsKeys : KeepsKeys instance_world
instance_world-KeepsKeys = record {
  provision_key = λ n req resp e. ground (arith, eq_iff "key" "");
  update_key = λ n req resp e. ground (arith, eq_iff "key" "");
  deprovision_key = λ n req resp e. ground (arith, eq_iff "key" "");
  get_key = λ n si h. h;
  status_update_key = λ n si h. h;
}

instance_observed :
    (observe test_platform instance_world test_external (
      run_all test_platform instance_world test_external
        (updating ∷ observing ∷ [])
        instance_session)).0
    ≡ ok up_to_date
unfolding ◌>>=◌ observe run_all observe_state update build_update_instance_request
    update_status_from_osb has_last_operation handle_last_operation_in_progress
    build_poll_last_operation_request get_latest_kube_object is_deletable
instance_observed = refl

instance_polls-PollsAnswered : PollsAnswered test_platform instance_world
instance_polls-PollsAnswered n req e = ground arith

no_update_after_key_example : up_to_date.resource_up_to_date ≡ true
no_update_after_key_example =
    no_update_after_key test_platform instance_world test_external instance_world-KeepsKeys
      (updating ∷ observing ∷ []) instance_session up_to_date (ground (arith, eq_iff "key" ""))
      instance_observed refl

observe-ne-panic_example :
    (observe test_platform instance_world test_external instance_session).0 ≢ panic
observe-ne-panic_example =
    observe-ne-panic test_platform instance_world test_external instance_session
      instance_polls-PollsAnswered

deprovision-SendsAtMostOne_example :
    SendsAtMostOne test_platform instance_world instance_session test_identity false
      (deprovision test_platform instance_world test_identity false instance_session).1.calls
deprovision-SendsAtMostOne_example =
    deprovision-SendsAtMostOne test_platform instance_world instance_session test_identity false

abbrev other_plan : GetInstanceResponse
other_plan = record { plan_id = "large"; dashboard_url = "url"; parameters = none }

abbrev other_parameters : GetInstanceResponse
other_parameters = record {
  plan_id = "plan";
  dashboard_url = "url";
  parameters = some (field "a" (text "b") end);
}

-- A broker that reports the other plan, of an instance without an operation.
abbrev other_world : World test_platform (ServiceInstance test_platform)
other_world = record instance_world { get_instance = λ n r. answer (some other_plan) }

abbrev pub settled_session : Session (ServiceInstance test_platform)
settled_session = record {
  obj = record test_instance { at_provider = record test_observation { last_operation_key = "" } };
  calls = [];
}

other_world-ReportsOtherPlan :
    ReportsOtherPlan test_platform other_world test_external settled_session
other_world-ReportsOtherPlan n req got e =
    (ground (arith, eq_iff "plan" ""), ground (arith, eq_iff "plan" "large"))

other_observed : (observe test_platform other_world test_external settled_session).0 ≡ ok up_to_date
unfolding ◌>>=◌ observe observe_state has_last_operation observe_external build_get_instance_request
    compare_spec_with_osb
other_observed = refl

observe-hides_plan_change_example : up_to_date.resource_up_to_date ≡ true
observe-hides_plan_change_example =
    observe-hides_plan_change test_platform other_world test_external settled_session up_to_date
      other_world-ReportsOtherPlan other_observed refl refl refl

need_to_update_iff_example :
    (compare_spec_with_osb test_platform test_instance (some other_parameters)
      ≡ done need_to_update)
    ↔ NeedsUpdate test_platform test_instance other_parameters
need_to_update_iff_example = need_to_update_iff test_platform test_instance other_parameters

abbrev test_response : AsyncResponse
test_response = record { async = true; dashboard_url = some "url"; operation_key = some "key" }

provision-SavesAnswer_example :
    let (result, t) = provision test_platform instance_world false instance_session in
    ((t.obj ≡ test_instance) × (result ≢ ok tt))
    ⊎ SavesAnswer test_platform instance_world instance_session false t.calls
provision-SavesAnswer_example =
    provision-SavesAnswer test_platform instance_world instance_session false

pub test_context-IsContext : IsContext test_context
unfolding distinct_map
test_context-IsContext = record { namespace_annotations = refl; instance_annotations = refl }

no_parameters-keyed : well_keyed (object end) ≡ true
unfolding well_keyed
no_parameters-keyed = refl

test_parameters : to_parameters test_platform "{}" ≡ done (some end)
unfolding to_parameters
test_parameters = refl

compare_spec_with_osb-settled_example :
    compare_spec_with_osb test_platform
      (update_status_from_osb test_platform test_response test_instance)
      (some (record { plan_id = "plan"; dashboard_url = "url"; parameters = some end }))
    ≡ done nothing_to_do
compare_spec_with_osb-settled_example =
    compare_spec_with_osb-settled test_platform test_instance test_response
      (record { plan_id = "plan"; dashboard_url = "url"; parameters = some end }) end
      test_context-IsContext no_parameters-keyed (ground (arith, eq_iff "{}" "")) test_parameters
      refl refl

-- An instance that Kubernetes says is to be deleted.
abbrev pub deleted_session : Session (ServiceInstance test_platform)
deleted_session = record {
  obj = record test_instance {
    meta = record { external_name = "id"; deleted = true; finalizers = λ f. false };
  };
  calls = [];
}

instance_world-DeletesLater : DeletesLater instance_world "key"
instance_world-DeletesLater = record {
  named = ground (arith, eq_iff "key" "");
  accepted = λ n r. refl;
  polled = λ n r. refl;
  got = λ n si. refl;
  saved = λ n si. refl;
}

deletion_accepted :
    (delete test_platform instance_world test_external deleted_session).0
    ≡ ok (record { async = false })
unfolding ◌>>=◌ delete deprovision request_deprovision build_deprovision_request
deletion_accepted = refl

delete-completes_example :
    (observe test_platform instance_world test_external
      (delete test_platform instance_world test_external deleted_session).1).0
    ≡ ok no_observation
delete-completes_example =
    delete-completes test_platform instance_world test_external "key" instance_world-DeletesLater
      deleted_session (record { async = false }) refl (ground (arith, eq_iff "id" ""))
      deletion_accepted
