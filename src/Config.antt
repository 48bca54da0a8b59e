-- ===== src/Config.antt =====
-- apis/v1alpha1/providerconfig_types.go and providerconfig_methods.go: how the broker is reached. The
-- metadata and the selectors of credentials are types of the libraries, so they are parameters.
use provider_osb.Base.{ℕ, String, Bool}

-- The source of the credentials, and the selectors that are inlined beside it.
pub record ProviderCredentials (S : Type 0) : Type 0 where
  pub source : String
  pub selectors : S

-- `Timeout` is an `int` that the schema keeps from being negative.
pub record ProviderConfigSpec (S : Type 0) : Type 0 where
  pub credentials : ProviderCredentials S
  pub broker_url : String
  pub osb_version : String
  pub timeout : ℕ
  pub disable_async : Bool

pub record ProviderConfig (M S : Type 0) : Type 0 where
  pub meta : M
  pub spec : ProviderConfigSpec S

pub record ClusterProviderConfig (M S : Type 0) : Type 0 where
  pub meta : M
  pub spec : ProviderConfigSpec S

-- `ProviderConfigKind` and `ClusterProviderConfigKind`: the names of the two types.
abbrev pub provider_config_kind : String
provider_config_kind = "ProviderConfig"

abbrev pub cluster_provider_config_kind : String
cluster_provider_config_kind = "ClusterProviderConfig"

-- `xpv1.ProviderConfigReference`
pub record ProviderConfigReference : Type 0 where
  pub kind : String
  pub name : String

-- `client.ObjectKey`; a cluster-scoped object has no namespace.
pub record ObjectKey : Type 0 where
  pub name : String
  pub namespace : String

-- `resource.ProviderConfig` as the type switch of `NewOsbClient` sees it: one of the two types, or
-- another one with its printed text.
pub data AnyProviderConfig (M S : Type 0) : Type 0 where
  namespaced : ProviderConfig M S → AnyProviderConfig M S
  cluster : ClusterProviderConfig M S → AnyProviderConfig M S
  other_type : String → AnyProviderConfig M S

-- `OsbConfig`: the three getters that both types have.
pub record OsbConfig : Type 0 where
  pub get_broker_url : String
  pub get_osb_version : String
  pub get_timeout : ℕ

module _ {M S : Type 0} where
  -- `GetBrokerURL`, `GetOSBVersion` and `GetTimeout` of a `ProviderConfig`.
  unfoldable pub provider_config_getters : ProviderConfig M S → OsbConfig
  provider_config_getters pc = record {
    get_broker_url = pc.spec.broker_url;
    get_osb_version = pc.spec.osb_version;
    get_timeout = pc.spec.timeout;
  }

  -- The same three of a `ClusterProviderConfig`.
  unfoldable pub cluster_provider_config_getters : ClusterProviderConfig M S → OsbConfig
  cluster_provider_config_getters cpc = record {
    get_broker_url = cpc.spec.broker_url;
    get_osb_version = cpc.spec.osb_version;
    get_timeout = cpc.spec.timeout;
  }
