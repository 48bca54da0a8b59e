-- ===== src/Util/Client.antt =====
-- internal/controller/util/util.go: the configuration of the provider, the client of the broker and the
-- originating identity.
pub mod Failures
pub mod Making
pub mod Resolution
use provider_osb.Base.{ℕ, String, ◌<>◌, Bool, Option, none, some, ◌==◌, is_empty, if◌then◌else◌}
use provider_osb.Errors.{
  sentinel, wrap, wrap_at, detail, UtilError, of_util, Fallible, done, fail, ◌>>=◌ as ◌and_then◌,
}
use provider_osb.Config.{
  ProviderConfigSpec, AnyProviderConfig, namespaced, cluster, other_type, ProviderConfigReference,
  provider_config_kind, cluster_provider_config_kind, ObjectKey, OsbConfig, provider_config_getters,
  cluster_provider_config_getters,
}
use provider_osb.Common.{KubernetesOsbOriginatingIdentityValue}
use provider_osb.Osb.{BasicAuthConfig, ClientConfiguration, OriginatingIdentity}
use provider_osb.Platform.{Platform, World, Call}
use provider_osb.Exec.{Exec, pure, raise, lift, gets, ask, wrapping, ◌>>=◌}

-- `OriginatingIdentityPlatformName`
abbrev pub originating_identity_platform_name : String
originating_identity_platform_name = "kubernetes"

module _ (P : Platform) where
  unfoldable pub decode_b64_string_to_basic_auth_config : String → Fallible BasicAuthConfig
  decode_b64_string_to_basic_auth_config s =
      if is_empty s
      then fail (sentinel (of_util UtilError.base64_string_cannot_be_empty))
      else (P.decode_base64 s and_then λ bytes. P.unmarshal_basic_auth bytes and_then λ decoded.
          done (record { username = decoded.0; password = decoded.1 }))

  -- The configuration of `NewOsbClient`, before the credentials are added.
  unfoldable pub client_configuration : OsbConfig → ClientConfiguration
  client_configuration conf = record P.default_client_configuration {
    url = conf.get_broker_url;
    api_version = P.api_version conf.get_osb_version;
    timeout_seconds = conf.get_timeout;
  }

  -- Credentials that are empty leave the configuration alone.
  unfoldable pub add_credentials : String → ClientConfiguration → Fallible ClientConfiguration
  unfolding decode_b64_string_to_basic_auth_config
  add_credentials creds config =
      if is_empty creds then done config else (elim (decode_b64_string_to_basic_auth_config creds) [
        | done basic_auth ↦ done (record config { auth_config = some basic_auth })
        | fail cause ↦ fail (wrap (of_util UtilError.cannot_decode_basic_auth) cause)
      ])

  -- The type switch of `NewOsbClient`.
  unfoldable pub osb_config : AnyProviderConfig P.ObjectMeta P.Selectors → Fallible OsbConfig
  unfolding provider_config_getters cluster_provider_config_getters
  osb_config (namespaced pc) = done (provider_config_getters pc)
  osb_config (cluster cpc) = done (cluster_provider_config_getters cpc)
  osb_config (other_type printed) =
      fail (detail (of_util UtilError.unsupported_provider_type) printed)

  -- `MakeOriginatingIdentityFromValue`
  unfoldable pub make_originating_identity_from_value :
      KubernetesOsbOriginatingIdentityValue → Fallible OriginatingIdentity
  make_originating_identity_from_value val = P.marshal_identity val and_then λ value.
      done (record { platform = originating_identity_platform_name; value = value })

-- `ProviderReferencer`: an object with a reference to its provider's configuration.
pub record ProviderReferencer (P : Platform) (O : Type 0) : Type 0 where
  pub get_meta : O → P.ObjectMeta
  pub get_provider_config_reference : O → Option ProviderConfigReference

-- The error of a `Get` that failed, with the key.
unfoldable pub get_failed_at : {A : Type 0} → String → String → Fallible A → Fallible A
get_failed_at name namespace (done a) = done a
get_failed_at name namespace (fail cause) = fail (
    wrap_at (of_util UtilError.cannot_get_provider_config)
      ("with name: " <> name <> ", in namespace: " <> namespace) cause)

-- The reference of an object with this namespace and name, which may be nil.
unfoldable pub reference_of :
    String → String → Option ProviderConfigReference → Fallible ProviderConfigReference
reference_of namespace name none =
    fail (detail (of_util UtilError.no_provider_config_reference) (namespace <> "/" <> name))
reference_of namespace name (some ref) = done ref

module _ (P : Platform) {O : Type 0} (w : World P O) where
  abbrev pub Resolved : Type 0
  Resolved = AnyProviderConfig P.ObjectMeta P.Selectors × ProviderConfigSpec P.Selectors

  -- A call of the outside world that may fail.
  abbrev pub ask_fallible : {A : Type 0} → Call O → (ℕ → Fallible A) → Exec O A
  ask_fallible c answers = ask c answers >>= lift

  -- `NewOsbClient` below the type switch.
  unfoldable pub request_client : OsbConfig → String → Exec O P.Client
  unfolding client_configuration add_credentials
  request_client conf creds =
      lift (add_credentials P creds (client_configuration P conf)) >>= λ config.
      ask_fallible (Call.new_client config) (λ n. w.new_client n config)

  unfoldable pub new_osb_client :
      AnyProviderConfig P.ObjectMeta P.Selectors → String → Exec O P.Client
  unfolding osb_config request_client
  new_osb_client pc creds = lift (osb_config P pc) >>= λ conf. request_client conf creds

  -- The case of `ProviderConfigKind`.
  unfoldable pub resolve_namespaced : P.ObjectMeta → ProviderConfigReference → Exec O Resolved
  unfolding get_failed_at
  resolve_namespaced m ref =
      let key : ObjectKey = record { name = ref.name; namespace = P.get_namespace m } in
      ask (Call.get_provider_config key) (λ n. w.get_provider_config n key) >>= λ got.
      lift (get_failed_at ref.name (P.get_namespace m) got) >>= λ npc.
      pure (namespaced npc, npc.spec)

  -- The case of `ClusterProviderConfigKind`.
  unfoldable pub resolve_cluster : ProviderConfigReference → Exec O Resolved
  resolve_cluster ref =
      let key : ObjectKey = record { name = ref.name; namespace = "" } in
      wrapping (of_util UtilError.cannot_get_cluster_provider_config) (
        ask_fallible (Call.get_cluster_provider_config key)
          (λ n. w.get_cluster_provider_config n key))
      >>= λ cpc. pure (cluster cpc, cpc.spec)

  -- The switch of `ResolveProviderConfig` on the kind.
  unfoldable pub resolve_reference : P.ObjectMeta → ProviderConfigReference → Exec O Resolved
  unfolding resolve_namespaced resolve_cluster
  resolve_reference m ref =
      if ref.kind == provider_config_kind
      then resolve_namespaced m ref
      else if ref.kind == cluster_provider_config_kind
      then resolve_cluster ref
      else raise (detail (of_util UtilError.unknown_provider_config_kind) ref.kind)

  unfoldable pub resolve_provider_config : ProviderReferencer P O → Exec O Resolved
  unfolding resolve_reference reference_of
  resolve_provider_config obj = gets (λ o. o) >>= λ o.
      lift (
        reference_of (P.get_namespace (obj.get_meta o)) (P.get_name (obj.get_meta o))
          (obj.get_provider_config_reference o))
      >>= resolve_reference (obj.get_meta o)
