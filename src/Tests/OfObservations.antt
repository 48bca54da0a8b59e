-- ===== src/Tests/OfObservations.antt =====
-- Observations, and the requests and configurations behind them, at which their properties are run.
use provider_osb.Base.{
  String, true, false, ◌≡◌, ◌⊎◌, ◌<>◌, none, some, [], ◌∷◌, refl, arith, eq_iff,
}
use provider_osb.Errors.{Error, wrap, detail, other, done, UtilError, of_util}
use provider_osb.Json.{Fields, object, field, end, text}
use provider_osb.Json.Reflexive.{well_keyed}
use provider_osb.Common.Serial.{to_parameters}
use provider_osb.Config.{ProviderConfigReference}
use provider_osb.Osb.{GetBindingResponse, answer}
use provider_osb.Platform.{World}
use provider_osb.Exec.{Session, ok, err, ◌>>=◌}
use provider_osb.Util.Client.{resolve_provider_config}
use provider_osb.Util.Client.Failures.{ReferenceFails, resolve_provider_config-fails}
use provider_osb.Binding.{ServiceBinding}
use provider_osb.Binding.Requests.{build_unbind_request, build_binding_last_operation_request}
use provider_osb.Binding.Requests.Agreement.{Agree, unbind-Agree-poll}
use provider_osb.Instance.{ServiceInstance}
use provider_osb.Instance.Operations as Operations
use provider_osb.Instance.Requests.{build_update_instance_request}
use provider_osb.Instance.Operations.Polling.{Echoes}
use provider_osb.Controller.{ExternalObservation}
use provider_osb.Controller.Binding.Connect.{referencer}
use provider_osb.Controller.Instance.Convergence.{AppliesAtOnce, up_to_date, update-settles}
use provider_osb.Controller.Binding as BindingController
use provider_osb.Controller.Instance as InstanceController
use provider_osb.Tests.{test_platform, test_identity}
use provider_osb.Tests.OfBindings.{
  bound, test_binding, binding_world, test_external as binding_external,
}
use provider_osb.Tests.OfInstances.{
  settled_session, instance_world, test_context-IsContext, test_external as instance_external,
}

unbind-Agree-poll_example :
    Agree
      (build_unbind_request test_platform bound.obj test_identity)
      (build_binding_last_operation_request test_platform bound.obj test_identity)
unbind-Agree-poll_example = unbind-Agree-poll test_platform bound.obj test_identity

-- A broker that reports the binding with its credentials.
abbrev reported : GetBindingResponse String String
reported = record {
  credentials = some (field "user" (text "admin") end);
  parameters = none;
  endpoints = none;
  volume_mounts = none;
  route_service_url = none;
  syslog_drain_url = none;
  metadata = none;
}

abbrev pub reporting_world : World test_platform (ServiceBinding test_platform)
reporting_world = record binding_world { get_binding = λ n r. answer (some reported) }

abbrev pub reported_session : Session (ServiceBinding test_platform)
reported_session = record { obj = test_binding "old" "{\"a\":\"b\"}" (λ f. false); calls = [] }

abbrev pub published : ExternalObservation
published = record {
  resource_exists = true;
  resource_up_to_date = true;
  connection_details = some (("user", "{\"a\":\"b\"}") ∷ []);
}

-- A binding whose configuration is not there.
abbrev misplaced : ProviderConfigReference
misplaced = record { kind = "ClusterProviderConfig"; name = "config" }

abbrev misplaced_session : Session (ServiceBinding test_platform)
misplaced_session = record {
  obj = record bound.obj { provider_config_reference = some misplaced };
  calls = [];
}

abbrev not_found : Error
not_found = wrap (of_util UtilError.cannot_get_cluster_provider_config) (other "not found")

resolution_failed :
    (resolve_provider_config test_platform binding_world
      (referencer test_platform)
      misplaced_session).0
    ≡ err not_found
unfolding ◌>>=◌ resolve_provider_config
resolution_failed = refl

resolve_provider_config-fails_example :
    let t =
      (resolve_provider_config test_platform binding_world
        (referencer test_platform)
        misplaced_session).1 in
    ((misplaced_session.obj.provider_config_reference ≡ none)
      × (not_found
          ≡ detail (of_util UtilError.no_provider_config_reference) ("namespace" <> "/" <> "name"))
      × (t ≡ misplaced_session))
    ⊎ ((ref : ProviderConfigReference) × (misplaced_session.obj.provider_config_reference
          ≡ some ref)
        × ReferenceFails test_platform binding_world misplaced_session.obj.meta ref not_found
            misplaced_session t)
resolve_provider_config-fails_example =
    resolve_provider_config-fails test_platform binding_world (referencer test_platform)
      misplaced_session not_found resolution_failed

-- An instance with parameters that the broker reports.
abbrev wanted : Fields
wanted = field "a" (text "b") end

abbrev wanted_session : Session (ServiceInstance test_platform)
wanted_session = record settled_session {
  obj = record settled_session.obj {
    for_provider = record settled_session.obj.for_provider { parameters = "{\"a\":\"b\"}" };
  };
}

instance_world-Echoes : Echoes test_platform instance_world
instance_world-Echoes = record { got = λ n si. refl; saved = λ n si. refl }

instance_world-AppliesAtOnce : AppliesAtOnce instance_world wanted_session.obj wanted
instance_world-AppliesAtOnce = record {
  resp = record { async = false; dashboard_url = some "url"; operation_key = none };
  report = record { plan_id = "plan"; dashboard_url = "url"; parameters = some wanted };
  updated = λ n r. refl;
  at_once = refl;
  got = λ n r. refl;
  plan = refl;
  parameters = refl;
}

wanted-keyed : well_keyed (object wanted) ≡ true
unfolding well_keyed
wanted-keyed = refl

wanted-read : to_parameters test_platform "{\"a\":\"b\"}" ≡ done (some wanted)
unfolding to_parameters
wanted-read = refl

instance_updated :
    (InstanceController.update test_platform instance_world instance_external wanted_session).0
    ≡ ok (record { connection_details = some [] })
unfolding ◌>>=◌ InstanceController.update Operations.update build_update_instance_request
instance_updated = refl

update-settles_example :
    (InstanceController.observe test_platform instance_world instance_external
      (InstanceController.update test_platform instance_world instance_external wanted_session).1).0
    ≡ ok up_to_date
update-settles_example =
    update-settles test_platform instance_world instance_external wanted_session wanted
      (record { connection_details = some [] }) instance_world-Echoes instance_world-AppliesAtOnce
      test_context-IsContext wanted-keyed (ground (arith, eq_iff "{\"a\":\"b\"}" "")) wanted-read
      refl refl instance_updated
