-- ===== src/Start/Main/Started.antt =====
-- What runs once `main` has started the manager.
use provider_osb.Base.{
  Option-cases, String, ◌≡◌, ◌≢◌, ◌⊎◌, [], false, inl, inr, refl, Option, none, List, arith, eq_iff,
}
use provider_osb.Errors.{Error, done}
use provider_osb.Exec.Rules.{Fallible-cases, Result-cases}
use provider_osb.Apis.{SchemeLibrary, add_to_scheme}
use provider_osb.Apis.Kinds.{IsSchemeLibrary, KnowsApis, add_to_scheme-KnowsApis}
use provider_osb.Platform.{Platform}
use provider_osb.Exec.{Session}
use provider_osb.Start.{
  CommandLine, FlagSet, IsFlagSet, enabled_features, enable_alpha_rotate_bindings,
  enable_beta_management_policies,
}
use provider_osb.Start.Runtime.{Recorders, Runtime}
use provider_osb.Start.Controllers.{
  Entry, setup_all, config_controller, binding_controller, instance_controller,
}
use provider_osb.Start.Controllers.Registered.{Has, IsRuntime}
use provider_osb.Start.Controllers.Loop.{Visits, setup_all-RunsAll, setup_all-ne-panic}
use provider_osb.Start.Main.{Outcome, start, main, options, manager_options}

-- The scheme of a manager is the one that was written, and nothing else of it changes by that.
pub record HoldsScheme {L : SchemeLibrary} {R : Recorders} (rt : Runtime L R) : Type 0 where
  pub written : (s : L.Scheme) (m : rt.Manager) → rt.get_scheme (rt.set_scheme s m) ≡ s
  pub identity :
      (s : L.Scheme) (m : rt.Manager) → rt.impersonate (rt.set_scheme s m) ≡ rt.impersonate m

-- The flag for the logs of changes is another one than the two that the command line switches on.
abbrev pub IsOtherFlag : String → Type 0
IsOtherFlag f = (enable_alpha_rotate_bindings ≢ f) × (enable_beta_management_policies ≢ f)

module _ {L : SchemeLibrary} {R : Recorders} (P : Platform) (F : FlagSet) (rt : Runtime L R)
    (line : CommandLine) (flags : IsFlagSet F) (other : IsOtherFlag rt.enable_alpha_change_logs)
    (laws : IsRuntime rt) (order : List (Entry P F rt))
    (visits : Visits P F rt laws (options P F rt line) order) where
  change_logs-off : F.enabled (enabled_features F line) rt.enable_alpha_change_logs ≡ false
  unfolding enabled_features
  change_logs-off = ground (
    arith,
    other,
    flags.enabled-no_flags rt.enable_alpha_change_logs,
    flags.enabled-enable enable_beta_management_policies rt.enable_alpha_change_logs F.no_flags,
    flags.enabled-enable enable_alpha_rotate_bindings rt.enable_alpha_change_logs F.no_flags,
    flags.enabled-enable enable_alpha_rotate_bindings rt.enable_alpha_change_logs
        (F.enable enable_beta_management_policies F.no_flags),
    eq_iff enable_beta_management_policies rt.enable_alpha_change_logs,
    eq_iff enable_alpha_rotate_bindings rt.enable_alpha_change_logs,
  )

  -- The manager that `main` makes, and the scheme that it has then.
  pub record IsMade (mgr : rt.Manager) : Type 0 where
    pub config :
        (cfg : rt.RestConfig) × (rt.get_config ≡ done cfg)
        × (rt.new_manager
              (rt.limit_rest_config cfg line.max_reconcile_rate)
              (manager_options P F rt line)
            ≡ done mgr)
    pub apis : (add_to_scheme L (rt.get_scheme mgr)).0 ≡ none

  -- The session in which the controllers are set up.
  abbrev prepared : rt.Manager → Session rt.Manager
  prepared mgr = record {
    obj = rt.set_scheme (add_to_scheme L (rt.get_scheme mgr)).1 mgr;
    calls = [];
  }

  -- The manager `m` was made for the command line, recognises the APIs and runs the controllers.
  pub record IsSetUp (m : rt.Manager) : Type 0 where
    pub mgr : rt.Manager
    pub made : IsMade mgr
    pub configs : Has (config_controller P F rt (options P F rt line)) (laws.running m)
    pub bindings : Has (binding_controller P F rt (options P F rt line) mgr none) (laws.running m)
    pub instances : Has (instance_controller P F rt (options P F rt line) mgr) (laws.running m)
    pub apis : KnowsApis L (rt.get_scheme m)

  main-cases :
      ((t : String) × (e : Error) × (main P F rt line order ≡ Outcome.fatal t e))
      ⊎ ((mgr : rt.Manager) × IsMade mgr
          × (main P F rt line order ≡ start P F rt line (setup_all P F rt order (prepared mgr))))
  unfolding main manager_options
  main-cases = elim (Fallible-cases rt.get_config) [
    | inl (e, failed) ↦ inl ("Cannot get API server rest config", e, rw failed refl)
    | inr (cfg, got) ↦
        elim (Fallible-cases (
          rt.new_manager (rt.limit_rest_config cfg line.max_reconcile_rate)
            (manager_options P F rt line))) [
              | inl (e, failed) ↦ inl ("Cannot create controller manager", e, rw (got, failed) refl)
              | inr (mgr, made) ↦ elim (Option-cases (add_to_scheme L (rt.get_scheme mgr)).0) [
                | inr (e, failed) ↦
                    inl ("Cannot add OSB APIs namespace to scheme", e, rw (got, made, failed) refl)
                | inl added ↦ inr (
                  mgr,
                  record { config = (cfg, got, made); apis = added },
                  rw (got, made, added) refl,
                )
              ]
            ]
  ]

  -- If only flags that were enabled are on, the flag for the logs of changes is neither of the two that
  -- the command line enables, and the loop over the controllers visits exactly them, in any order, then
  -- `main` dereferences no nil pointer, although its options have no logger of changes.
  pub main-ne-crashed : main P F rt line order ≢ Outcome.crashed
  unfolding start
  main-ne-crashed h = elim main-cases [
    | inl (t, e, failed) ↦ ground (arith, failed, h)
    | inr (mgr, made, goes_on) ↦
        let survives =
          setup_all-ne-panic P F rt laws (options P F rt line) change_logs-off order visits
            (prepared mgr) in
        elim (Result-cases (setup_all P F rt order (prepared mgr)).0) [
          | inl (_, ran) ↦ let went = rw (goes_on, ran) at h in ground arith
          | inr (inl (e, failed)) ↦ let went = rw (goes_on, failed) at h in ground arith
          | inr (inr crashed) ↦ survives crashed
        ]
  ]

  -- A manager that `main` starts was set up with what `main` gives to the controllers.
  pub main-IsSetUp :
      (holds : HoldsScheme rt) (schemes : IsSchemeLibrary L) (m : rt.Manager) (end : Option Error)
      → main P F rt line order ≡ Outcome.stopped m end
      → IsSetUp m
  unfolding start
  main-IsSetUp holds schemes m end h = elim main-cases [
    | inl (t, e, failed) ↦ absurd (ground (arith, failed, h))
    | inr (mgr, made, goes_on) ↦ elim (Result-cases (setup_all P F rt order (prepared mgr)).0) [
      | inr (inl (e, failed)) ↦ let went = rw (goes_on, failed) at h in absurd (ground arith)
      | inr (inr crashed) ↦ let went = rw (goes_on, crashed) at h in absurd (ground arith)
      | inl (_, ran) ↦
          let o = options P F rt line in
          let all =
            setup_all-RunsAll P F rt laws o change_logs-off order visits (prepared mgr) ran in
          let went = rw (goes_on, ran) at h in
          let same : (setup_all P F rt order (prepared mgr)).1.obj ≡ m = ground arith in
          let identity = holds.identity (add_to_scheme L (rt.get_scheme mgr)).1 mgr in
          rw (← same) (record {
            mgr = mgr;
            made = made;
            configs = all.configs;
            bindings = rw identity at all.bindings;
            instances = rw identity at all.instances;
            apis =
                rw (all.scheme, holds.written)
                  (add_to_scheme-KnowsApis L schemes (rt.get_scheme mgr) made.apis);
          })
    ]
  ]
