-- ===== src/Tests/OfStart.antt =====
-- A command line at which the property of what is started is run.
use provider_osb.Base.{String, Bool, true, false, ◌≡◌, ◌==◌, refl, none, [], if◌then◌else◌}
use provider_osb.Exec.{Session, ◌>>=◌}
use provider_osb.Exec.Inversion.{Succeeds}
use provider_osb.Util.Client.{
  resolve_provider_config, new_osb_client, client_configuration, add_credentials,
  decode_b64_string_to_basic_auth_config, make_originating_identity_from_value,
}
use provider_osb.Json.{deep_equal_maps, deep_equal}
use provider_osb.Util.{marshal_binding_credentials}
use provider_osb.Binding.{
  ServiceBinding, update_binding_status_from_response, status_parameters_differ,
}
use provider_osb.Binding.Requests.{build_get_binding_request}
use provider_osb.Binding.Renewal.{handle_renewal_bindings}
use provider_osb.Binding.Operations.Observe.{
  observe_state, observe_external, after_get, observe_response,
}
use provider_osb.Controller.{Impersonate}
use provider_osb.Controller.Binding.Connect.{Connected, connect, connector_of_setup}
use provider_osb.Controller.Binding.Updates.{AsksNoUpdate}
use provider_osb.Start.{
  CommandLine, default_command_line, FlagSet, IsFlagSet, enabled_features, started_connector,
}
use provider_osb.Start.Rotation.{started-AsksNoUpdate}
use provider_osb.Controller.Binding.{observe}
use provider_osb.Exec.{ok}
use provider_osb.Tests.{test_platform, test_identity}
use provider_osb.Tests.OfBindings.{bound}
use provider_osb.Tests.OfConnections.{test_client}
use provider_osb.Tests.OfObservations.{reporting_world, reported_session, published}

abbrev pub test_flags : FlagSet
test_flags = record {
  Flags = String → Bool;
  no_flags = λ f. false;
  enable = λ f s g. if f == g then true else s g;
  enabled = λ s f. s f;
}

pub test_flags-IsFlagSet : IsFlagSet test_flags
test_flags-IsFlagSet = record { enabled-no_flags = λ f. refl; enabled-enable = λ f g s. refl }

-- Management policies on, rotation off.
abbrev pub test_line : CommandLine
test_line = record default_command_line { enable_management_policies = true }

abbrev pub nobody : Impersonate
nobody = record { user_name = ""; uid = ""; groups = []; extra = none }

abbrev quiet : Connected test_platform
quiet = record {
  client = test_client;
  external = record {
    originating_identity = test_identity;
    disable_async = true;
    rotate_binding = false;
  };
}

abbrev quiet_after : Session (ServiceBinding test_platform)
quiet_after =
    (connect test_platform reporting_world
      (started_connector test_flags test_platform test_line nobody) bound).1

quiet_connects :
    Succeeds
      (connect test_platform reporting_world
        (started_connector test_flags test_platform test_line nobody))
      bound
      quiet
      quiet_after
unfolding ◌>>=◌ connect started_connector enabled_features connector_of_setup
    resolve_provider_config new_osb_client client_configuration add_credentials
    decode_b64_string_to_basic_auth_config make_originating_identity_from_value
quiet_connects = record { result = refl; after = refl }

quiet_observed :
    (observe test_platform reporting_world quiet.external reported_session).0 ≡ ok published
unfolding ◌>>=◌ observe observe_state observe_external build_get_binding_request after_get
    observe_response update_binding_status_from_response marshal_binding_credentials
    handle_renewal_bindings status_parameters_differ deep_equal_maps deep_equal
quiet_observed = refl

started-AsksNoUpdate_example : AsksNoUpdate published
started-AsksNoUpdate_example =
    started-AsksNoUpdate test_flags test_flags-IsFlagSet test_line refl test_platform
      reporting_world nobody bound quiet_after reported_session quiet published quiet_connects
      quiet_observed
