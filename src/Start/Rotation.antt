-- ===== src/Start/Rotation.antt =====
-- From the command line to the rotation of bindings.
use provider_osb.Base.{false, ◌≡◌, ◌∙◌, arith, eq_iff}
use provider_osb.Platform.{Platform, World}
use provider_osb.Exec.{Session, ok}
use provider_osb.Exec.Inversion.{Succeeds}
use provider_osb.Binding.{ServiceBinding}
use provider_osb.Controller.{Impersonate, ExternalObservation}
use provider_osb.Controller.Binding.{observe}
use provider_osb.Controller.Binding.Connect.{Connector, Connected, connect, connector_of_setup}
use provider_osb.Controller.Binding.Connect.Exact.{connect_binding-IsConnected}
use provider_osb.Controller.Binding.Updates.{AsksNoUpdate, observe-AsksNoUpdate}
use provider_osb.Start.{
  CommandLine, FlagSet, IsFlagSet, enabled_features, started_connector,
  enable_alpha_rotate_bindings, enable_beta_management_policies,
}

module _ (F : FlagSet) (laws : IsFlagSet F) (line : CommandLine)
    (off : line.enable_automatic_rotate_bindings ≡ false) where
  features-off : F.enabled (enabled_features F line) enable_alpha_rotate_bindings ≡ false
  unfolding enabled_features
  features-off = ground (
    arith,
    off,
    laws.enabled-no_flags enable_alpha_rotate_bindings,
    laws.enabled-enable enable_beta_management_policies enable_alpha_rotate_bindings F.no_flags,
    eq_iff enable_beta_management_policies enable_alpha_rotate_bindings,
  )

  connector-off :
      (P : Platform) (impersonate : Impersonate)
      → (started_connector F P line impersonate).rotate_binding ≡ false
  unfolding started_connector connector_of_setup
  connector-off P impersonate = features-off

  -- If the command line does not switch the automatic rotation of bindings on, then no external client
  -- that the connector of bindings returns ever asks for an update: an observation that succeeds, of
  -- any binding, reports a resource that exists as up to date. Only flags that were enabled count as
  -- enabled.
  pub started-AsksNoUpdate :
      (P : Platform) (w : World P (ServiceBinding P)) (impersonate : Impersonate)
      (s t u : Session (ServiceBinding P)) (conn : Connected P) (r : ExternalObservation)
      → Succeeds (connect P w (started_connector F P line impersonate)) s conn t
      → (observe P w conn.external u).0 ≡ ok r
      → AsksNoUpdate r
  started-AsksNoUpdate P w impersonate s t u conn r connects observed =
      let c : Connector = started_connector F P line impersonate in
      let is = connect_binding-IsConnected P w c s conn t connects in
      observe-AsksNoUpdate P w conn.external (is.rotate_binding ∙ connector-off P impersonate) u r
        observed
