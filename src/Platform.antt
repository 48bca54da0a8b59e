-- ===== src/Platform.antt =====
-- What the provider calls and does not implement: the metadata helpers and conditions of
-- crossplane-runtime, JSON and time texts, the OSB client, the Kubernetes client, the clock and
-- fresh UUIDs. All of it is a parameter of the model.
pub mod Laws
use provider_osb.Base.{ℕ, String, Bool, Option}
use provider_osb.Errors.{Error, Fallible}
use provider_osb.Json.{Value, GoMap}
use provider_osb.Config.{ProviderCredentials, ProviderConfig, ClusterProviderConfig, ObjectKey}
use provider_osb.Common.{ExtraMap, KubernetesOsbOriginatingIdentityValue}
use provider_osb.Osb.{
  ProvisionRequest, UpdateInstanceRequest, DeprovisionRequest, LastOperationRequest,
  GetInstanceRequest, BindRequest, UnbindRequest, RotateBindingRequest, GetBindingRequest,
  BindingLastOperationRequest, AsyncResponse, DeprovisionResponse, UnbindResponse,
  ClientConfiguration, LastOperationResponse, GetInstanceResponse, BindResponse, GetBindingResponse,
  Reply,
}

-- The conditions that the provider sets. `unhealthy` is its own `Healthy=False` with a message.
pub data Condition : Type 0 where
  available unavailable creating deleting : Condition
  unhealthy : String → Condition

pub record Platform : Type 1 where
  -- `metav1.ObjectMeta` and package meta
  pub ObjectMeta : Type 0
  pub get_name : ObjectMeta → String
  pub get_namespace : ObjectMeta → String
  pub get_external_name : ObjectMeta → String
  pub set_external_name : ObjectMeta → String → ObjectMeta
  pub was_deleted : ObjectMeta → Bool
  pub finalizer_exists : ObjectMeta → String → Bool
  pub add_finalizer : ObjectMeta → String → ObjectMeta
  pub remove_finalizer : ObjectMeta → String → ObjectMeta
  -- `xpv1.ResourceStatus`
  pub Conditions : Type 0
  pub set_conditions : Conditions → Condition → Conditions
  -- encoding/json, on each type that the provider hands to it
  pub Endpoints : Type 0
  pub VolumeMounts : Type 0
  pub marshal_value : Value → Fallible String
  pub marshal_endpoints : Option Endpoints → Fallible String
  pub marshal_volume_mounts : Option VolumeMounts → Fallible String
  pub unmarshal_map : String → Fallible GoMap
  pub no_endpoints : Endpoints
  pub no_volume_mounts : VolumeMounts
  pub unmarshal_endpoints : String → Fallible Endpoints
  pub unmarshal_volume_mounts : String → Fallible VolumeMounts
  pub marshal_extra : ExtraMap → Fallible String
  pub unmarshal_extra : String → Fallible ExtraMap
  pub marshal_identity : KubernetesOsbOriginatingIdentityValue → Fallible String
  -- `base64.StdEncoding`, and the JSON object with the members "user" and "password"
  pub decode_base64 : String → Fallible String
  pub unmarshal_basic_auth : String → Fallible (String × String)
  -- package osb: its default configuration, the version of a label, and its client
  pub default_client_configuration : ClientConfiguration
  pub api_version : String → String
  pub Client : Type 0
  -- `xpv1.CommonCredentialSelectors`
  pub Selectors : Type 0
  -- package time, with the layout `Iso8601dateFormat`; a time is a number of nanoseconds
  pub parse_time : String → Fallible ℕ
  pub format_time : ℕ → String

-- The result of a call of the Kubernetes client, which decodes the server's answer into the object.
pub record KubeReply (O : Type 0) : Type 0 where
  pub error : Option Error
  pub object : O

-- The outside world of one object of type `O`. Credentials are bytes that are valid text. Each answer
-- may depend on how many calls went before, so a value of this type is any run of answers.
pub record World (P : Platform) (O : Type 0) : Type 0 where
  pub provision_instance : ℕ → ProvisionRequest → Reply AsyncResponse
  pub update_instance : ℕ → UpdateInstanceRequest → Reply AsyncResponse
  pub deprovision_instance : ℕ → DeprovisionRequest → Reply DeprovisionResponse
  pub poll_last_operation : ℕ → LastOperationRequest → Reply LastOperationResponse
  pub get_instance : ℕ → GetInstanceRequest → Reply GetInstanceResponse
  pub bind : ℕ → BindRequest → Reply (BindResponse P.Endpoints P.VolumeMounts)
  pub unbind : ℕ → UnbindRequest → Reply UnbindResponse
  pub rotate_binding : ℕ → RotateBindingRequest → Reply (BindResponse P.Endpoints P.VolumeMounts)
  pub get_binding : ℕ → GetBindingRequest → Reply (GetBindingResponse P.Endpoints P.VolumeMounts)
  pub poll_binding_last_operation : ℕ → BindingLastOperationRequest → Reply LastOperationResponse
  pub kube_get : ℕ → O → KubeReply O
  pub kube_update : ℕ → O → KubeReply O
  pub kube_status_update : ℕ → O → KubeReply O
  pub track : ℕ → O → Option Error
  pub get_provider_config : ℕ → ObjectKey → Fallible (ProviderConfig P.ObjectMeta P.Selectors)
  pub get_cluster_provider_config :
      ℕ → ObjectKey → Fallible (ClusterProviderConfig P.ObjectMeta P.Selectors)
  pub extract_credentials : ℕ → ProviderCredentials P.Selectors → Fallible String
  pub new_client : ℕ → ClientConfiguration → Fallible P.Client
  pub now : ℕ → ℕ
  pub new_uuid : ℕ → String

-- A call of the outside world.
pub data Call (O : Type 0) : Type 0 where
  provision_instance : ProvisionRequest → Call O
  update_instance : UpdateInstanceRequest → Call O
  deprovision_instance : DeprovisionRequest → Call O
  poll_last_operation : LastOperationRequest → Call O
  get_instance : GetInstanceRequest → Call O
  bind : BindRequest → Call O
  unbind : UnbindRequest → Call O
  rotate_binding : RotateBindingRequest → Call O
  get_binding : GetBindingRequest → Call O
  poll_binding_last_operation : BindingLastOperationRequest → Call O
  kube_get : O → Call O
  kube_update : O → Call O
  kube_status_update : O → Call O
  track : O → Call O
  get_provider_config : ObjectKey → Call O
  get_cluster_provider_config : ObjectKey → Call O
  extract_credentials : String → Call O
  new_client : ClientConfiguration → Call O
  now : Call O
  new_uuid : Call O
