-- ===== src/Controller/Instance/Connect/Exact.antt =====
-- What the controller of a instance is connected to.
use provider_osb.Base.{suc, String, ◌≡◌, none, some, ◌∷◌, arith, length}
use provider_osb.Errors.{done}
use provider_osb.Config.{ProviderConfigReference}
use provider_osb.Osb.{ClientConfiguration}
use provider_osb.Platform.{Platform, World, Call}
use provider_osb.Exec.{Session}
use provider_osb.Exec.Inversion.{Succeeds, bind_gets_inv, bind_ask_inv, bind_lift_inv, pure_ok}
use provider_osb.Util.Client.{Resolved, make_originating_identity_from_value}
use provider_osb.Util.Client.Resolution.{IsResolved, bind_resolve_inv}
use provider_osb.Util.Client.Making.{IsConfigured, IsResolved-IsKnown, bind_client_inv}
use provider_osb.Instance.{ServiceInstance}
use provider_osb.Controller.Instance.Connect.{Connector, Connected, connect, connected, referencer}

module _ (P : Platform) (w : World P (ServiceInstance P)) (c : Connector)
    (s : Session (ServiceInstance P)) where
  -- The four calls of `Connect`, in order, and what it makes of their answers.
  pub record IsConnected (conn : Connected P) (t : Session (ServiceInstance P)) : Type 0 where
    pub ref : ProviderConfigReference
    pub resolved : Resolved P w
    pub get : Call (ServiceInstance P)
    pub creds : String
    pub config : ClientConfiguration
    pub tracked : w.track (length s.calls) s.obj ≡ none
    pub referred : s.obj.provider_config_reference ≡ some ref
    pub resolves : IsResolved P w s.obj.meta ref (suc (length s.calls)) resolved get
    pub extracted :
        w.extract_credentials (suc (suc (length s.calls))) resolved.1.credentials ≡ done creds
    pub configured : IsConfigured P w resolved.1 creds config
    pub made : w.new_client (suc (suc (suc (length s.calls)))) config ≡ done conn.client
    pub identity :
        make_originating_identity_from_value P c.originating_identity_value
        ≡ done conn.external.originating_identity
    pub disable_async : conn.external.disable_async ≡ resolved.1.disable_async
    pub unchanged : t.obj ≡ s.obj
    pub called : t.calls ≡ (
        Call.new_client config
        ∷ Call.extract_credentials resolved.1.credentials.source
        ∷ get
        ∷ Call.track s.obj
        ∷ s.calls)

  -- A connection that succeeds leaves the object as it is and makes four calls, in this order: it
  -- tracks the use of the configuration, gets the configuration that the object refers to, by its
  -- kind, extracts the credentials of that configuration, and asks for a client with its URL, version
  -- and time-out and these credentials. The external client has that client, the identity of the
  -- connector and the asynchrony of that configuration.
  pub connect_instance-IsConnected :
      (conn : Connected P) (t : Session (ServiceInstance P))
      → Succeeds (connect P w c) s conn t
      → IsConnected conn t
  unfolding connect connected
  connect_instance-IsConnected conn t h = bind_gets_inv _ _ h λ h0.
      bind_ask_inv _ _ _ _ h0 λ u tracked h1.
        bind_resolve_inv P w (referencer P) _ h1 λ ref r get referred resolves h2.
          bind_ask_inv _ _ _ _ h2 λ creds extracted h3.
            bind_client_inv P w _ r creds _ (IsResolved-IsKnown P w s.obj.meta ref _ r get resolves)
              h3
              λ client config configured made h4. bind_lift_inv _ h4 λ oid named h5.
                let (literal, last) = pure_ok h5 in
                record {
                  ref = ref;
                  resolved = r;
                  get = get;
                  creds = creds;
                  config = config;
                  tracked = ground arith;
                  referred = referred;
                  resolves = resolves;
                  extracted = extracted;
                  configured = configured;
                  made = ground (arith, literal);
                  identity = ground (arith, literal);
                  disable_async = ground (arith, literal);
                  unchanged = ground (arith, last);
                  called = ground (arith, last);
                }
