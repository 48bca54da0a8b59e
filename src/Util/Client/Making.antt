-- ===== src/Util/Client/Making.antt =====
-- Which client is made from a configuration of the provider.
use provider_osb.Base.{
  ℕ, String, ◌≡◌, ◌≢◌, ◌⊎◌, inl, inr, ◌∙◌, Bool-cases, some, ◌∷◌, arith, length, eq_iff, is_empty,
}
use provider_osb.Errors.{done, Sentinel}
use provider_osb.Config.{
  ProviderConfigSpec, namespaced, cluster, other_type, ProviderConfigReference, OsbConfig,
  provider_config_getters, cluster_provider_config_getters,
}
use provider_osb.Osb.{BasicAuthConfig, ClientConfiguration}
use provider_osb.Platform.{Platform, World, Call}
use provider_osb.Exec.{Exec, Session, ok, wrapping, ◌>>=◌}
use provider_osb.Exec.Inversion.{Succeeds, bind-inv, wrapping_ok, Succeeds-from}
use provider_osb.Exec.Rules.{Fallible-cases}
use provider_osb.Util.Client.{
  Resolved, new_osb_client, add_credentials, client_configuration,
  decode_b64_string_to_basic_auth_config, osb_config, request_client,
}
use provider_osb.Util.Client.Resolution.{IsResolved}

module _ (P : Platform) {O : Type 0} (w : World P O) where
  -- The credentials are used as they should be: none, or basic authentication that was decoded.
  abbrev pub IsAuthenticated : String → ClientConfiguration → Type 0
  IsAuthenticated creds config =
      ((creds ≡ "") × (config.auth_config ≡ P.default_client_configuration.auth_config))
      ⊎ ((creds ≢ "")
          × ((auth : BasicAuthConfig) × (decode_b64_string_to_basic_auth_config P creds ≡ done auth)
              × (config.auth_config ≡ some auth)))

  -- The configuration of the client for a configuration of the provider.
  pub record IsConfigured (spec : ProviderConfigSpec P.Selectors) (creds : String)
      (config : ClientConfiguration) : Type 0 where
    pub url : config.url ≡ spec.broker_url
    pub api_version : config.api_version ≡ P.api_version spec.osb_version
    pub timeout_seconds : config.timeout_seconds ≡ spec.timeout
    pub auth_config : IsAuthenticated creds config

  -- The client was made by one call, with that configuration.
  abbrev pub MakesClient :
      ProviderConfigSpec P.Selectors → String → Session O → P.Client → Session O → Type 0
  MakesClient spec creds s client t =
      (config : ClientConfiguration) × IsConfigured spec creds config
      × (w.new_client (length s.calls) config ≡ done client)
      × (t ≡ record s { calls = Call.new_client config ∷ s.calls })

  -- A resolved configuration is one of the two types, beside its spec.
  abbrev pub IsKnown : Resolved P w → Type 0
  IsKnown (namespaced npc, spec) = spec ≡ npc.spec
  IsKnown (cluster cpc, spec) = spec ≡ cpc.spec
  IsKnown (other_type printed, spec) = ⊥

  pub IsResolved-IsKnown :
      (m : P.ObjectMeta) (ref : ProviderConfigReference) (n : ℕ) (r : Resolved P w) (call : Call O)
      → IsResolved P w m ref n r call
      → IsKnown r
  IsResolved-IsKnown m ref n r call h = ground arith

  add_credentials-IsAuthenticated :
      (conf : OsbConfig) (creds : String) (config : ClientConfiguration)
      → add_credentials P creds (client_configuration P conf) ≡ done config
      → (config.url ≡ conf.get_broker_url)
        × (config.api_version ≡ P.api_version conf.get_osb_version)
        × (config.timeout_seconds ≡ conf.get_timeout)
        × IsAuthenticated creds config
  unfolding add_credentials client_configuration
  add_credentials-IsAuthenticated conf creds config h = elim (Bool-cases (is_empty creds)) [
    | inl empty ↦ (
      ground arith,
      ground arith,
      ground arith,
      inl (ground (arith, eq_iff creds ""), ground arith),
    )
    | inr filled ↦ elim (Fallible-cases (decode_b64_string_to_basic_auth_config P creds)) [
      | inl (e, failed) ↦ absurd (ground arith)
      | inr (auth, decoded) ↦ (
        ground arith,
        ground arith,
        ground arith,
        inr (ground (arith, eq_iff creds ""), (auth, decoded, ground arith)),
      )
    ]
  ]

  -- The getters read the spec.
  abbrev Reads : OsbConfig → ProviderConfigSpec P.Selectors → Type 0
  Reads conf spec =
      (conf.get_broker_url ≡ spec.broker_url)
      × (conf.get_osb_version ≡ spec.osb_version)
      × (conf.get_timeout ≡ spec.timeout)

  request_client-MakesClient :
      (conf : OsbConfig) (spec : ProviderConfigSpec P.Selectors) (creds : String) (s : Session O)
      (client : P.Client)
      → Reads conf spec
      → (request_client P w conf creds s).0 ≡ ok client
      → MakesClient spec creds s client (request_client P w conf creds s).1
  unfolding ◌>>=◌ request_client
  request_client-MakesClient conf spec creds s client reads h =
      elim (Fallible-cases (add_credentials P creds (client_configuration P conf))) [
        | inl (e, failed) ↦ absurd (ground arith)
        | inr (config, added) ↦
            let known = add_credentials-IsAuthenticated conf creds config added in
            (
              config,
              record {
                url = ground (arith, known);
                api_version = ground (arith, known);
                timeout_seconds = ground (arith, known);
                auth_config = known.3;
              },
              ground arith,
              ground arith,
            )
      ]

  pub new_osb_client-MakesClient :
      (r : Resolved P w) (creds : String) (s : Session O) (client : P.Client)
      → IsKnown r
      → (new_osb_client P w r.0 creds s).0 ≡ ok client
      → MakesClient r.1 creds s client (new_osb_client P w r.0 creds s).1
  unfolding ◌>>=◌ new_osb_client osb_config provider_config_getters cluster_provider_config_getters
  new_osb_client-MakesClient (other_type printed, spec) creds s client known h = absurd known
  new_osb_client-MakesClient (namespaced npc, spec) creds s client known h =
      request_client-MakesClient (provider_config_getters npc) spec creds s client
        (ground arith, ground arith, ground arith) h
  new_osb_client-MakesClient (cluster cpc, spec) creds s client known h =
      request_client-MakesClient (cluster_provider_config_getters cpc) spec creds s client
        (ground arith, ground arith, ground arith) h

  module _ {B C : Type 0} {s : Session O} {b : B} {u : Session O} where
    -- A sequence that begins with the client, and succeeded.
    pub bind_client_inv :
        (e : Sentinel) (r : Resolved P w) (creds : String) (f : P.Client → Exec O B)
        → IsKnown r
        → Succeeds (wrapping e (new_osb_client P w r.0 creds) >>= f) s b u
        → ((client : P.Client) (config : ClientConfiguration)
            → IsConfigured r.1 creds config
            → w.new_client (length s.calls) config ≡ done client
            → Succeeds (f client) (record s { calls = Call.new_client config ∷ s.calls }) b u
            → C)
        → C
    bind_client_inv e r creds f known h k =
        bind-inv f (wrapping e (new_osb_client P w r.0 creds)) h λ client made next.
          let (unwrapped, same) = wrapping_ok e (new_osb_client P w r.0 creds) s client made in
          let (config, configured, given, after) =
            new_osb_client-MakesClient r creds s client known unwrapped in
          k client config configured given (Succeeds-from (same ∙ after) next)
