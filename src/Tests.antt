-- ===== src/Tests.antt =====
-- The concrete platform, clock, broker and resources that the tests run the model on.
pub mod OfInstances
pub mod OfBindings
pub mod OfTexts
pub mod OfConnections
pub mod OfComparisons
pub mod Lasting
pub mod OfConvergence
pub mod OfPolling
pub mod OfRuns
pub mod OfObservations
pub mod OfMain
pub mod OfStart
pub mod OfStatuses
use provider_osb.Base.{
  ℕ, String, Bool, true, false, Option, none, some, List, [], ◌∷◌, ◌==◌, ◌<>◌, is_empty,
  if◌then◌else◌, refl,
}
use provider_osb.Errors.{Error, other, http, Fallible, done, fail}
use provider_osb.Json.{Value, text, Fields, end, field, GoMap}
use provider_osb.Common.{KubernetesOsbContext}
use provider_osb.Config.{ProviderConfigSpec, ProviderConfig, ProviderConfigReference}
use provider_osb.Osb.{
  OriginatingIdentity, ClientConfiguration, answer, failure, LastOperationResponse, succeeded,
}
use provider_osb.Platform.{Platform, Condition, World, KubeReply}
use provider_osb.Platform.Laws.{IsLawful}

-- Metadata with a test for each finalizer.
pub record TestMeta : Type 0 where
  pub external_name : String
  pub deleted : Bool
  pub finalizers : String → Bool

-- Only these texts are read as maps and as times.
abbrev read_map : String → Fallible GoMap
read_map t =
    if is_empty t
    then fail (other "unexpected end of JSON input")
    else if t == "{\"a\":\"b\"}"
    then done (some (field "a" (text "b") end))
    else done (some end)

abbrev read_time : String → Fallible ℕ
read_time t =
    if t == "one o'clock" then done 1 else if t == "nine" then done 9 else fail (other "no time")

abbrev pub test_platform : Platform
test_platform = record {
  ObjectMeta = TestMeta;
  get_name = λ m. "name";
  get_namespace = λ m. "namespace";
  get_external_name = λ m. m.external_name;
  set_external_name = λ m id. record m { external_name = id };
  was_deleted = λ m. m.deleted;
  finalizer_exists = λ m f. m.finalizers f;
  add_finalizer = λ m f. record m { finalizers = λ g. if f == g then true else m.finalizers g };
  remove_finalizer = λ m f. record m { finalizers = λ g. if f == g then false else m.finalizers g };
  Conditions = List Condition;
  set_conditions = λ cs c. c ∷ cs;
  Endpoints = String;
  VolumeMounts = String;
  marshal_value = λ v. done "{\"a\":\"b\"}";
  marshal_endpoints = λ e. done "[]";
  marshal_volume_mounts = λ v. done "[]";
  unmarshal_map = read_map;
  no_endpoints = "";
  no_volume_mounts = "";
  unmarshal_endpoints = λ t. done t;
  unmarshal_volume_mounts = λ t. done t;
  marshal_extra = λ m. done "{}";
  unmarshal_extra = λ t. done none;
  marshal_identity = λ v. done "user";
  decode_base64 = λ t. done t;
  unmarshal_basic_auth = λ t. done (t, "secret");
  default_client_configuration = record {
    url = "";
    api_version = "2.17";
    timeout_seconds = 60;
    auth_config = none;
  };
  api_version = λ v. v;
  Client = ClientConfiguration;
  Selectors = Unit;
  parse_time = read_time;
  format_time = λ t. "a time";
}

pub test_platform-IsLawful : IsLawful test_platform
test_platform-IsLawful = record {
  get-set_external_name = λ m id. refl;
  exists-add = λ m f g. refl;
  exists-remove = λ m f g. refl;
}

abbrev pub test_config_spec : ProviderConfigSpec (Unit {0})
test_config_spec = record {
  credentials = record { source = "admin"; selectors = tt };
  broker_url = "https://broker";
  osb_version = "2.16";
  timeout = 30;
  disable_async = true;
}

abbrev test_config : ProviderConfig TestMeta (Unit {0})
test_config = record {
  meta = record { external_name = ""; deleted = false; finalizers = λ f. false };
  spec = test_config_spec;
}

abbrev pub test_reference : ProviderConfigReference
test_reference = record { kind = "ProviderConfig"; name = "config" }

-- A broker that finishes each request at once, and a Kubernetes that accepts each object.
abbrev accept : {O : Type 0} → ℕ → O → KubeReply O
accept n o = record { error = none; object = o }

abbrev pub test_world : (O : Type 0) → World test_platform O
test_world O = record {
  provision_instance = λ n r.
      answer
        (some (record { async = true; dashboard_url = some "url"; operation_key = some "key" }));
  update_instance = λ n r.
      answer (some (record { async = false; dashboard_url = some "url"; operation_key = none }));
  deprovision_instance = λ n r. answer (some (record { async = true; operation_key = some "key" }));
  poll_last_operation = λ n r. answer (some (record { state = succeeded; description = none }));
  get_instance = λ n r. answer (
      some (record {
        plan_id = "plan";
        dashboard_url = "url";
        parameters = some (field "a" (text "b") end);
      }));
  bind = λ n r. answer (
      some (record {
        async = false;
        operation_key = none;
        credentials = some (field "user" (text "admin") end);
        endpoints = none;
        volume_mounts = none;
        route_service_url = none;
        syslog_drain_url = none;
        metadata = none;
      }));
  unbind = λ n r. answer (some (record { async = true; operation_key = some "key" }));
  rotate_binding = λ n r. answer (
      some (record {
        async = false;
        operation_key = none;
        credentials = some (field "user" (text "root") end);
        endpoints = none;
        volume_mounts = none;
        route_service_url = none;
        syslog_drain_url = none;
        metadata = none;
      }));
  get_binding = λ n r. failure (http 404);
  poll_binding_last_operation =
      λ n r. answer (some (record { state = succeeded; description = none }));
  kube_get = accept;
  kube_update = accept;
  kube_status_update = accept;
  track = λ n o. none;
  get_provider_config = λ n key. done test_config;
  get_cluster_provider_config = λ n key. fail (other "not found");
  extract_credentials = λ n c. done c.source;
  new_client = λ n config. done config;
  now = λ n. 5;
  new_uuid = λ n. "uuid";
}

abbrev pub test_context : KubernetesOsbContext
test_context = record {
  platform = "kubernetes";
  namespace = "namespace";
  namespace_annotations = none;
  instance_annotations = none;
  cluster_id = "cluster";
  instance_name = "name";
}

abbrev pub test_identity : OriginatingIdentity
test_identity = record { platform = "kubernetes"; value = "user" }
