-- ===== src/Tests/Lasting.antt =====
-- A platform that writes and reads one map, and a broker that binds and rotates on it.
use Prim.Native.String.{◌∷◌ as ◌then◌}
use provider_osb.Base.{
  String, Bool-cases, true, false, ◌≡◌, ◌==◌, ◌≢◌, inl, inr, refl, none, some, [], arith, eq_iff,
  if◌then◌else◌,
}
use provider_osb.Errors.{Fallible, done, fail, other, http}
use provider_osb.Json.{Value, Fields, object, end, GoMap, deep_equal, deep_equal_maps}
use provider_osb.Common.Serial.{map_value, context_fields}
use provider_osb.Osb.{GetBindingResponse, BindResponse, answer, failure}
use provider_osb.Platform.{Platform, World}
use provider_osb.Platform.Laws.{IsLawful, ReadsBack}
use provider_osb.Exec.{Session}
use provider_osb.Util.{marshal_binding_credentials}
use provider_osb.Binding.{ServiceBinding}
use provider_osb.Controller.Binding.Readiness.{Agrees, Reports}
use provider_osb.Tests.{test_platform, test_world, test_context}
use provider_osb.Tests.OfBindings.{bound}
use provider_osb.Tests.OfStatuses.{write_slice, read_slice, marking-slice_read}

-- The only map that is written and read: the context of the bindings.
abbrev pub context : Fields
unfolding context_fields
context = context_fields test_context

abbrev pub write_context : Value → Fallible String
write_context v = if deep_equal (object context) v then done "{}" else fail (other "not written")

abbrev pub lasting_platform : Platform
lasting_platform = record test_platform {
  marshal_value = write_context;
  unmarshal_map = λ t. done (some context);
  marshal_endpoints = write_slice;
  marshal_volume_mounts = write_slice;
  unmarshal_endpoints = read_slice;
  unmarshal_volume_mounts = read_slice;
}

pub unequal : deep_equal (object context) (map_value none) ≡ false
unfolding deep_equal map_value
unequal = refl

pub lasting-map_read :
    (m : GoMap) (t : String)
    → write_context (map_value m) ≡ done t
    → (t ≢ "")
      × ((n : GoMap) × (lasting_platform.unmarshal_map t ≡ done n) × (deep_equal_maps n m ≡ true))
unfolding map_value deep_equal_maps
lasting-map_read none t h =
    let differs : deep_equal (object context) (map_value none) ≡ false = unequal in
    absurd (ground (arith, differs))
lasting-map_read (some m) t h = elim (Bool-cases (deep_equal (object context) (object m))) [
  | inl same ↦ (ground (arith, eq_iff "{}" ""), (some context, refl, same))
  | inr differs ↦ absurd (ground arith)
]

pub lasting_platform-ReadsBack : ReadsBack lasting_platform
lasting_platform-ReadsBack = record {
  map_read = lasting-map_read;
  endpoints_read = marking-slice_read;
  volume_mounts_read = marking-slice_read;
}

pub lasting_platform-IsLawful : IsLawful lasting_platform
lasting_platform-IsLawful = record {
  get-set_external_name = λ m id. refl;
  exists-add = λ m f g. refl;
  exists-remove = λ m f g. refl;
}

abbrev pub fresh_report : GetBindingResponse String String
fresh_report = record {
  credentials = some end;
  parameters = some context;
  endpoints = none;
  volume_mounts = none;
  route_service_url = none;
  syslog_drain_url = none;
  metadata = none;
}

abbrev pub at_once : BindResponse String String
at_once = record {
  async = false;
  operation_key = none;
  credentials = some end;
  endpoints = none;
  volume_mounts = none;
  route_service_url = none;
  syslog_drain_url = none;
  metadata = none;
}

abbrev pub later : BindResponse String String
later = record at_once { async = true; operation_key = some "key" }

-- The answers that are the same on every platform of the tests.
abbrev pub any : World test_platform (ServiceBinding lasting_platform)
any = test_world (ServiceBinding lasting_platform)

-- A broker that binds later, rotates at once, and then knows the binding with the new UUID only.
abbrev pub lasting_world : World lasting_platform (ServiceBinding lasting_platform)
lasting_world = record {
  provision_instance = any.provision_instance;
  update_instance = any.update_instance;
  deprovision_instance = any.deprovision_instance;
  poll_last_operation = any.poll_last_operation;
  get_instance = any.get_instance;
  bind = λ n r. answer (some later);
  unbind = any.unbind;
  rotate_binding = λ n r. answer (some at_once);
  get_binding =
      λ n r. if r.binding_id == "uuid" then answer (some fresh_report) else failure (http 404);
  poll_binding_last_operation = any.poll_binding_last_operation;
  kube_get = any.kube_get;
  kube_update = any.kube_update;
  kube_status_update = any.kube_status_update;
  track = any.track;
  get_provider_config = any.get_provider_config;
  get_cluster_provider_config = any.get_cluster_provider_config;
  extract_credentials = any.extract_credentials;
  new_client = any.new_client;
  now = any.now;
  new_uuid = any.new_uuid;
}

-- A binding with this external name.
abbrev pub lasting_session : String → Session (ServiceBinding lasting_platform)
lasting_session external_name = record {
  obj = record {
    meta = record bound.obj.meta { external_name = external_name };
    for_provider = bound.obj.for_provider;
    provider_config_reference = none;
    conditions = [];
    at_provider = bound.obj.at_provider;
  };
  calls = [];
}

pub lasting_world-Reports : Reports lasting_platform lasting_world fresh_report "uuid"
lasting_world-Reports n r named = ground (arith, named, eq_iff r.binding_id "uuid")

pub lasting_world-Agrees : Agrees lasting_world "{}" fresh_report (some [])
unfolding map_value marshal_binding_credentials deep_equal context
    provider_osb.Common.Serial.omit_empty
lasting_world-Agrees = record {
  read = refl;
  written = ("{}", "null", "null", refl, refl, refl);
  credentials = refl;
  fresh = tt;
}
