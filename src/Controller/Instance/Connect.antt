-- ===== src/Controller/Instance/Connect.antt =====
-- `connector` and `Connect` of internal/controller/serviceinstance/serviceinstance.go, and the part of
-- `Setup` that makes the connector.
pub mod Exact
use provider_osb.Base.{String, Bool, Option, some, List}
use provider_osb.Errors.{
  Error, wrap, InstanceControllerError, of_instance_controller, Fallible, done, fail,
}
use provider_osb.Common.{
  ExtraMap, KubernetesOsbOriginatingIdentityExtra, KubernetesOsbOriginatingIdentityValue,
}
use provider_osb.Common.Serial.{from_map}
use provider_osb.Config.{ProviderConfigSpec}
use provider_osb.Osb.{OriginatingIdentity}
use provider_osb.Platform.{Platform, World, Call}
use provider_osb.Exec.{Exec, pure, lift, gets, ask, wrapping, ◌>>=◌, ◌>>◌}
use provider_osb.Util.Client.{
  ProviderReferencer, ask_fallible, resolve_provider_config, new_osb_client,
  make_originating_identity_from_value,
}
use provider_osb.Controller.{Impersonate, ask_error}
use provider_osb.Instance.{ServiceInstance}
use provider_osb.Controller.Instance.{External}

-- `connector`, without its clients and the tracker.
pub record Connector : Type 0 where
  pub originating_identity_value : KubernetesOsbOriginatingIdentityValue

-- What `Connect` returns: the external client with its client of the broker.
pub record Connected (P : Platform) : Type 0 where
  pub client : P.Client
  pub external : External

module _ (P : Platform) where
  abbrev pub referencer : ProviderReferencer P (ServiceInstance P)
  referencer = record {
    get_meta = λ o. o.meta;
    get_provider_config_reference = λ o. o.provider_config_reference;
  }

  -- Extra data that cannot be written is left empty.
  unfoldable pub extra_of_setup : ExtraMap → KubernetesOsbOriginatingIdentityExtra
  unfolding from_map
  extra_of_setup m = elim (from_map P m) [ done extra ↦ extra | fail e ↦ record { raw = "" } ]

  -- The connector that `Setup` makes, for the identity of the manager.
  unfoldable pub connector_of_setup : Impersonate → Connector
  unfolding extra_of_setup
  connector_of_setup impersonate = record {
    originating_identity_value = record {
      username = impersonate.user_name;
      uid = impersonate.uid;
      groups = impersonate.groups;
      extra = some (extra_of_setup impersonate.extra);
    };
  }

  -- The literal at the end of `Connect`.
  unfoldable pub connected :
      Connector → P.Client → OriginatingIdentity → ProviderConfigSpec P.Selectors → Connected P
  connected c client oid pc_spec = record {
    client = client;
    external = record { originating_identity = oid; disable_async = pc_spec.disable_async };
  }

-- `if err != nil { return …, fmt.Errorf("%w: %s", e, fmt.Sprint(err)) }`
abbrev wrap_failure : {A : Type 0} → InstanceControllerError → Fallible A → Fallible A
wrap_failure e (done a) = done a
wrap_failure e (fail cause) = fail (wrap (of_instance_controller e) cause)

module _ (P : Platform) (w : World P (ServiceInstance P)) (c : Connector) where
  -- `Connect`, of an object of the right type.
  unfoldable pub connect : Exec (ServiceInstance P) (Connected P)
  unfolding connected
  connect = do
    obj ← gets (λ o. o)
    wrapping (of_instance_controller InstanceControllerError.cannot_track_provider_config_usage)
        (ask_error (Call.track obj) (λ n. w.track n obj))
    resolved ← resolve_provider_config P w (referencer P)
    creds ← wrapping (of_instance_controller InstanceControllerError.cannot_track_provider_config) (
        ask_fallible P w (Call.extract_credentials resolved.1.credentials.source)
          (λ n. w.extract_credentials n resolved.1.credentials))
    client ←
        wrapping (of_instance_controller InstanceControllerError.cannot_create_new_osb_client)
          (new_osb_client P w resolved.0 creds)
    oid ← lift (
        wrap_failure InstanceControllerError.cannot_make_originating_identity
          (make_originating_identity_from_value P c.originating_identity_value))
    pure (connected P c client oid resolved.1)
