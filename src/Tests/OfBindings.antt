-- ===== src/Tests/OfBindings.antt =====
-- Bindings at which the properties of the service binding are run.
use provider_osb.Base.{
  String, Bool, true, false, ◌≡◌, ◌≢◌, ◌⊎◌, ◌↔◌, none, some, [], refl, arith, eq_iff,
}
use provider_osb.Errors.{http, Error, other}
use provider_osb.Common.{need_to_create, need_to_update}
use provider_osb.Util.{is_resource_gone, Credentials, marshal_binding_credentials}
use provider_osb.Binding.Requests.{
  build_binding_last_operation_request, build_unbind_request, build_get_binding_request,
}
use provider_osb.Osb.{failure, LastOperationState, succeeded, GetBindingResponse, answer}
use provider_osb.Platform.{World}
use provider_osb.Exec.{Session, ok, err, panic, ◌>>=◌}
use provider_osb.Binding.{
  ServiceBinding, ServiceBindingParameters, ServiceBindingObservation,
  update_binding_status_from_response,
}
use provider_osb.Binding.Renewal.{rotate_binding, handle_renewal_bindings}
use provider_osb.Binding.Renewal.Decision.{ShouldRotate, rotates_iff}
use provider_osb.Binding.Operations.{bind, un_bind, trigger_rotation}
use provider_osb.Binding.Operations.Identity.{HasOneId, bind-HasOneId}
use provider_osb.Binding.Operations.Outcomes.{bind_without_parameters}
use provider_osb.Binding.Operations.Rotation.{Moved, trigger_rotation-Moved}
use provider_osb.Binding.Operations.Unbinding.{un_bind_loses_operation}
use provider_osb.Binding.Operations.Observe.{
  handle_last_operation_in_progress, handle_poll_error, observe_state, observe_external, after_get,
  observe_response,
}
use provider_osb.Binding.Operations.Observe.Outcomes.{observe_state-IsAllowed}
use provider_osb.Binding.Operations.Observe.Panics.{AnswersObserved, observe_state-ne-panic}
use provider_osb.Controller.Binding.{External, observe, delete}
use provider_osb.Controller.{no_observation}
use provider_osb.Controller.Binding.Deletion.{UnbindsLater, binding_delete-completes}
use provider_osb.Tests.{
  test_platform, test_platform-IsLawful, test_world, test_context, test_identity, test_reference,
}

abbrev pub binding_world : World test_platform (ServiceBinding test_platform)
binding_world = test_world (ServiceBinding test_platform)

abbrev binding_spec : String → ServiceBindingParameters
binding_spec parameters = record {
  app_guid = "app";
  instance_id = "id";
  plan_id = "plan";
  service_id = "service";
  context = test_context;
  parameters = parameters;
  bind_resource = record { app_guid = ""; route = "" };
}

abbrev binding_observation : LastOperationState → ServiceBindingObservation
binding_observation state = record {
  parameters = "{}";
  route_service_url = none;
  endpoints = "[]";
  volume_mounts = "[]";
  syslog_drain_url = none;
  metadata = none;
  last_operation_state = state;
  last_operation_key = "";
  last_operation_description = "";
  last_operation_polled_time = "";
}

abbrev pub test_binding : String → String → (String → Bool) → ServiceBinding test_platform
test_binding external_name parameters finalizers = record {
  meta = record { external_name = external_name; deleted = false; finalizers = finalizers };
  for_provider = binding_spec parameters;
  provider_config_reference = some test_reference;
  conditions = [];
  at_provider = binding_observation succeeded;
}

-- A binding that was never bound, one without parameters, and one that is bound.
abbrev unbound : Session (ServiceBinding test_platform)
unbound = record { obj = test_binding "" "{}" (λ f. false); calls = [] }

abbrev without_parameters : Session (ServiceBinding test_platform)
without_parameters = record { obj = test_binding "" "" (λ f. false); calls = [] }

abbrev pub bound : Session (ServiceBinding test_platform)
bound = record { obj = test_binding "old" "{}" (λ f. false); calls = [] }

abbrev pub test_external : External
test_external = record {
  originating_identity = test_identity;
  disable_async = false;
  rotate_binding = true;
}

unbound-HasOneId : HasOneId unbound
unbound-HasOneId = record { same = tt; unsent = λ e. tt }

bind-HasOneId_example : HasOneId (bind test_platform binding_world test_identity false unbound).1
bind-HasOneId_example =
    bind-HasOneId test_platform binding_world test_platform-IsLawful
      (λ n. ground (arith, eq_iff "uuid" "")) test_identity false unbound unbound-HasOneId

abbrev due : GetBindingResponse String String
due = record {
  credentials = none;
  parameters = none;
  endpoints = none;
  volume_mounts = none;
  route_service_url = none;
  syslog_drain_url = none;
  metadata = some (record { expires_at = "nine"; renew_before = "one o'clock" });
}

rotates_iff_example :
    ((handle_renewal_bindings test_platform binding_world (some due) true bound).0
      ≡ ok rotate_binding)
    ↔ ShouldRotate test_platform binding_world due true bound
rotates_iff_example = rotates_iff test_platform binding_world due true bound

trigger_rotation-Moved_example :
    let (result, t) = trigger_rotation test_platform binding_world test_identity bound in
    ((t.obj ≡ bound.obj) × ((creds : Credentials) → result ≢ ok creds))
    ⊎ Moved test_platform binding_world test_identity bound t
trigger_rotation-Moved_example =
    trigger_rotation-Moved test_platform binding_world test_identity bound

bind_without_parameters_example :
    (x : Error) × (bind test_platform binding_world test_identity false without_parameters
      ≡ (err x, without_parameters))
bind_without_parameters_example =
    bind_without_parameters test_platform binding_world test_identity false without_parameters
      (other "unexpected end of JSON input") refl refl

-- A Kubernetes that answers an update with the status that it stores.
abbrev storing_world : World test_platform (ServiceBinding test_platform)
storing_world = record binding_world {
  kube_update = λ n sb. record {
    error = none;
    object = record sb { at_provider = binding_observation succeeded };
  };
}

unbinding : (un_bind test_platform storing_world test_identity bound).0 ≡ ok true
unfolding ◌>>=◌ un_bind build_unbind_request
unbinding = refl

un_bind_loses_operation_example :
    (un_bind test_platform storing_world test_identity bound).1.obj.at_provider
    ≡ binding_observation succeeded
un_bind_loses_operation_example =
    un_bind_loses_operation test_platform storing_world test_identity
      (binding_observation succeeded) bound (λ n sb. refl) refl unbinding

-- A broker that reports a binding that is due.
abbrev due_world : World test_platform (ServiceBinding test_platform)
due_world = record binding_world { get_binding = λ n r. answer (some due) }

due_observed :
    (observe_state test_platform due_world true test_identity bound).0 ≡ ok (need_to_update, none)
unfolding ◌>>=◌ observe_state observe_external build_get_binding_request after_get observe_response
    update_binding_status_from_response marshal_binding_credentials handle_renewal_bindings
due_observed = refl

observe_state-IsAllowed_example : true ≡ true
observe_state-IsAllowed_example =
    observe_state-IsAllowed test_platform due_world true test_identity bound (need_to_update, none)
      due_observed

due_world-AnswersObserved : AnswersObserved test_platform due_world
due_world-AnswersObserved = record { polls = λ n r. ground arith; gets = λ n r. ground arith }

observe_state-ne-panic_example :
    (observe_state test_platform due_world true test_identity bound).0 ≢ panic
observe_state-ne-panic_example =
    observe_state-ne-panic test_platform due_world due_world-AnswersObserved true test_identity
      bound

unbinding_async : (un_bind test_platform binding_world test_identity bound).0 ≡ ok true
unfolding ◌>>=◌ un_bind build_unbind_request
unbinding_async = refl

-- A broker that no longer knows the binding, of which Kubernetes says that it is to be deleted.
abbrev gone_world : World test_platform (ServiceBinding test_platform)
gone_world = record binding_world { poll_binding_last_operation = λ n r. failure (http 410) }

abbrev deleted : Session (ServiceBinding test_platform)
deleted = record {
  obj = record (test_binding "old" "{}" (λ f. true)) {
    meta = record { external_name = "old"; deleted = true; finalizers = λ f. true };
  };
  calls = [];
}

polled_gone :
    (handle_last_operation_in_progress test_platform gone_world test_identity deleted).0
    ≡ ok need_to_create
unfolding ◌>>=◌ handle_last_operation_in_progress handle_poll_error
    build_binding_last_operation_request is_resource_gone
polled_gone = refl

gone_world-UnbindsLater : UnbindsLater gone_world "key"
gone_world-UnbindsLater = record {
  accepted = λ n r. refl;
  gone = λ n r. refl;
  updated = λ n sb. refl;
}

binding_deleted :
    (delete test_platform gone_world test_external deleted).0 ≡ ok (record { async = true })
unfolding ◌>>=◌ delete un_bind build_unbind_request
binding_deleted = refl

binding_delete-completes_example :
    (observe test_platform gone_world test_external
      (delete test_platform gone_world test_external deleted).1).0
    ≡ ok no_observation
binding_delete-completes_example =
    binding_delete-completes test_platform gone_world test_external "key" gone_world-UnbindsLater
      deleted (record { async = true }) refl refl binding_deleted
