-- ===== src/Tests/OfConnections.antt =====
-- Connections at which the properties of the connectors are run.
use provider_osb.Base.{true, none, some, [], refl}
use provider_osb.Osb.{ClientConfiguration}
use provider_osb.Exec.{Session, ◌>>=◌}
use provider_osb.Exec.Inversion.{Succeeds}
use provider_osb.Common.{KubernetesOsbOriginatingIdentityValue}
use provider_osb.Util.Client.{
  resolve_provider_config, new_osb_client, client_configuration, add_credentials,
  decode_b64_string_to_basic_auth_config, make_originating_identity_from_value,
}
use provider_osb.Binding.{ServiceBinding}
use provider_osb.Instance.{ServiceInstance}
use provider_osb.Controller.Binding.Connect as BindingConnect
use provider_osb.Controller.Binding.Connect.Exact as BindingExact
use provider_osb.Controller.Instance.Connect as InstanceConnect
use provider_osb.Controller.Instance.Connect.Exact as InstanceExact
use provider_osb.Tests.{test_platform, test_identity}
use provider_osb.Tests.OfBindings.{bound, binding_world}
use provider_osb.Tests.OfInstances.{instance_session, instance_world}

abbrev user : KubernetesOsbOriginatingIdentityValue
user = record { username = "name"; uid = "id"; groups = []; extra = none }

abbrev binding_connector : BindingConnect.Connector
binding_connector = record { originating_identity_value = user; rotate_binding = true }

abbrev instance_connector : InstanceConnect.Connector
instance_connector = record { originating_identity_value = user }

abbrev pub test_client : ClientConfiguration
test_client = record {
  url = "https://broker";
  api_version = "2.16";
  timeout_seconds = 30;
  auth_config = some (record { username = "admin"; password = "secret" });
}

abbrev binding_connected : BindingConnect.Connected test_platform
binding_connected = record {
  client = test_client;
  external = record {
    originating_identity = test_identity;
    disable_async = true;
    rotate_binding = true;
  };
}

abbrev instance_connected : InstanceConnect.Connected test_platform
instance_connected = record {
  client = test_client;
  external = record { originating_identity = test_identity; disable_async = true };
}

abbrev binding_after : Session (ServiceBinding test_platform)
binding_after = (BindingConnect.connect test_platform binding_world binding_connector bound).1

abbrev instance_after : Session (ServiceInstance test_platform)
instance_after =
    (InstanceConnect.connect test_platform instance_world instance_connector instance_session).1

binding_connects :
    Succeeds
      (BindingConnect.connect test_platform binding_world binding_connector)
      bound
      binding_connected
      binding_after
unfolding ◌>>=◌ BindingConnect.connect resolve_provider_config new_osb_client client_configuration
    add_credentials decode_b64_string_to_basic_auth_config make_originating_identity_from_value
binding_connects = record { result = refl; after = refl }

instance_connects :
    Succeeds
      (InstanceConnect.connect test_platform instance_world instance_connector)
      instance_session
      instance_connected
      instance_after
unfolding ◌>>=◌ InstanceConnect.connect resolve_provider_config new_osb_client client_configuration
    add_credentials decode_b64_string_to_basic_auth_config make_originating_identity_from_value
instance_connects = record { result = refl; after = refl }

connect_binding-IsConnected_example :
    BindingExact.IsConnected test_platform binding_world binding_connector bound binding_connected
      binding_after
connect_binding-IsConnected_example =
    BindingExact.connect_binding-IsConnected test_platform binding_world binding_connector bound
      binding_connected binding_after binding_connects

connect_instance-IsConnected_example :
    InstanceExact.IsConnected test_platform instance_world instance_connector instance_session
      instance_connected instance_after
connect_instance-IsConnected_example =
    InstanceExact.connect_instance-IsConnected test_platform instance_world instance_connector
      instance_session instance_connected instance_after instance_connects
