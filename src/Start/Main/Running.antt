-- ===== src/Start/Main/Running.antt =====
-- The manager that `main` starts keeps what the command line promises.
use provider_osb.Base.{◌≡◌, Bool-cases, inl, inr, refl, Option, none, List, arith, eq_iff}
use provider_osb.Errors.{Error, done}
use provider_osb.Apis.{SchemeLibrary}
use provider_osb.Apis.Kinds.{IsSchemeLibrary, KnowsApis}
use provider_osb.Platform.{Platform}
use provider_osb.Controller.Binding.Connect as OfBindings
use provider_osb.Controller.Instance.Connect as OfInstances
use provider_osb.Start.{
  CommandLine, FlagSet, IsFlagSet, enabled_features, enable_alpha_rotate_bindings,
  enable_beta_management_policies,
}
use provider_osb.Start.Runtime.{Recorders, Runtime, ManagerOptions, ControllerSpec}
use provider_osb.Start.Controllers.{
  Entry, config_controller, binding_controller, instance_controller,
}
use provider_osb.Start.Controllers.Registered.{Has, IsRuntime}
use provider_osb.Start.Controllers.Loop.{Visits}
use provider_osb.Start.Main.{Outcome, main, options, manager_options}
use provider_osb.Start.Main.Started.{HoldsScheme, IsOtherFlag, main-IsSetUp}
use provider_osb.Start.Main.Promises.{
  service_binding, service_instance, IsManaged, IsBindingReconciler, IsInstanceReconciler,
  IsController, IsConfigController,
}

module _ {L : SchemeLibrary} {R : Recorders} (P : Platform) (F : FlagSet) (rt : Runtime L R)
    (line : CommandLine) (flags : IsFlagSet F) where
  -- The feature is on exactly if the command line switches it on.
  rotation-feature :
      F.enabled (enabled_features F line) enable_alpha_rotate_bindings
      ≡ line.enable_automatic_rotate_bindings
  unfolding enabled_features
  rotation-feature = elim (Bool-cases line.enable_automatic_rotate_bindings) [
    | inl on ↦ ground (
      arith,
      on,
      flags.enabled-enable enable_alpha_rotate_bindings enable_alpha_rotate_bindings F.no_flags,
      flags.enabled-enable enable_alpha_rotate_bindings enable_alpha_rotate_bindings
          (F.enable enable_beta_management_policies F.no_flags),
      eq_iff enable_alpha_rotate_bindings enable_alpha_rotate_bindings,
    )
    | inr off ↦ ground (
      arith,
      off,
      flags.enabled-no_flags enable_alpha_rotate_bindings,
      flags.enabled-enable enable_beta_management_policies enable_alpha_rotate_bindings F.no_flags,
      eq_iff enable_beta_management_policies enable_alpha_rotate_bindings,
    )
  ]

  binding_controller-IsController :
      (mgr : rt.Manager)
      → IsController rt line service_binding
          (binding_controller P F rt (options P F rt line) mgr none)
  binding_controller-IsController mgr = record {
    name = refl;
    limit = refl;
    reconciles = refl;
    watches = refl;
    desired_state_only = refl;
  }

  binding_controller-IsBindingReconciler :
      (mgr : rt.Manager)
      → IsBindingReconciler rt line
          (rt.impersonate mgr)
          (binding_controller P F rt (options P F rt line) mgr none).reconciler
  unfolding OfBindings.connector_of_setup
  binding_controller-IsBindingReconciler mgr = record {
    made_with = _;
    made = refl;
    timed = record { poll_interval = refl; management_policies = refl; change_logger = refl };
    metrics = refl;
    rotates = rotation-feature;
    username = refl;
    uid = refl;
    groups = refl;
  }

  instance_controller-IsController :
      (mgr : rt.Manager)
      → IsController rt line service_instance (instance_controller P F rt (options P F rt line) mgr)
  instance_controller-IsController mgr = record {
    name = refl;
    limit = refl;
    reconciles = refl;
    watches = refl;
    desired_state_only = refl;
  }

  instance_controller-IsInstanceReconciler :
      (mgr : rt.Manager)
      → IsInstanceReconciler rt line
          (rt.impersonate mgr)
          (instance_controller P F rt (options P F rt line) mgr).reconciler
  unfolding OfInstances.connector_of_setup
  instance_controller-IsInstanceReconciler mgr = record {
    made_with = _;
    made = refl;
    timed = record { poll_interval = refl; management_policies = refl; change_logger = refl };
    metrics = refl;
    username = refl;
    uid = refl;
    groups = refl;
  }

  config_controller-IsConfigController :
      IsConfigController rt line (config_controller P F rt (options P F rt line))
  config_controller-IsConfigController = record {
    name = refl;
    limit = refl;
    reconciles = refl;
    watches = refl;
    reconciler = refl;
  }

  manager_options-IsManaged : IsManaged rt line (manager_options P F rt line)
  unfolding manager_options
  manager_options-IsManaged = record {
    sync_period = refl;
    leader_election = refl;
    leader_election_id = refl;
    resource_lock = refl;
    lease_duration = refl;
    renew_deadline = refl;
  }

  module _ (other : IsOtherFlag rt.enable_alpha_change_logs) (laws : IsRuntime rt)
      (order : List (Entry P F rt)) (visits : Visits P F rt laws (options P F rt line) order) where
    -- A manager that was made with the options and the limit of the command line, recognises the APIs,
    -- and runs the three controllers.
    pub record IsRunning (m : rt.Manager) : Type 0 where
      pub mgr : rt.Manager
      pub made :
          (cfg : rt.RestConfig) × (o : ManagerOptions) × (rt.get_config ≡ done cfg)
          × (rt.new_manager (rt.limit_rest_config cfg line.max_reconcile_rate) o ≡ done mgr)
          × IsManaged rt line o
      pub configs : (c : ControllerSpec R) × Has c (laws.running m) × IsConfigController rt line c
      pub bindings :
          (c : ControllerSpec R) × Has c (laws.running m)
          × IsController rt line service_binding c
          × IsBindingReconciler rt line (rt.impersonate mgr) c.reconciler
      pub instances :
          (c : ControllerSpec R) × Has c (laws.running m)
          × IsController rt line service_instance c
          × IsInstanceReconciler rt line (rt.impersonate mgr) c.reconciler
      pub apis : KnowsApis L (rt.get_scheme m)

    -- If only flags that were enabled are on, the flag for the logs of changes is neither of the two
    -- that the command line enables, the loop over the controllers visits exactly them, in any order,
    -- and the manager and its scheme behave as documented, then a manager that `main` starts was made
    -- with the sync period, the leader election and the rate of the command line, a lease of 60 and a
    -- deadline of 50 seconds, recognises all the APIs of the provider, and runs a controller of
    -- configurations, one of bindings and one of instances: each with the rate of the command line as
    -- its limit, the last two with its poll interval and with the user name, the UID and the groups of
    -- the manager, and that of bindings with rotation exactly if the command line switches it on.
    pub main-IsRunning :
        (holds : HoldsScheme rt) (schemes : IsSchemeLibrary L) (m : rt.Manager) (end : Option Error)
        → main P F rt line order ≡ Outcome.stopped m end
        → IsRunning m
    main-IsRunning holds schemes m end h =
        let up = main-IsSetUp P F rt line flags other laws order visits holds schemes m end h in
        let (cfg, got, made) = up.made.config in
        record {
          mgr = up.mgr;
          made = (cfg, manager_options P F rt line, got, made, manager_options-IsManaged);
          configs = (_, up.configs, config_controller-IsConfigController);
          bindings = (
            _,
            up.bindings,
            binding_controller-IsController up.mgr,
            binding_controller-IsBindingReconciler up.mgr,
          );
          instances = (
            _,
            up.instances,
            instance_controller-IsController up.mgr,
            instance_controller-IsInstanceReconciler up.mgr,
          );
          apis = up.apis;
        }
