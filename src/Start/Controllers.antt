-- ===== src/Start/Controllers.antt =====
-- `Setup` of internal/controller/osb.go, config/config.go, servicebinding/servicebinding.go and
-- serviceinstance/serviceinstance.go. The loggers, event recorders and the rate limiter, which the
-- code only passes on, are left out.
pub mod Loop
pub mod Registered
use provider_osb.Base.{String, Bool, true, false, Option, none, some, List, [], ◌∷◌, if◌then◌else◌}
use provider_osb.Errors.{
  wrap_at, of_setup, failed_to_setup_namespaced_controller, of_binding_controller,
  BindingControllerError, Error, sentinel, wrap,
}
use provider_osb.Apis.{
  SchemeLibrary, GroupVersionKind, service_binding_kind, service_instance_kind,
  provider_config_group_kind, provider_config_usage_kind, provider_config_usage_list_kind,
  binding_group_version,
}
use provider_osb.Platform.{Platform}
use provider_osb.Exec.{Exec, Session, Result, ok, err, panic, pure, crash, gets, ◌>>=◌, ◌>>◌}
use provider_osb.Controller.Binding.Connect as OfBindings
use provider_osb.Controller.Instance.Connect as OfInstances
use provider_osb.Start.{FlagSet, enable_alpha_rotate_bindings}
use provider_osb.Start.Runtime.{
  Recorders, Options, MetricOptions, ReconcilerOptions, Reconciler, ControllerSpec, StateRecorder,
  Runtime, on_manager,
}

-- `fmt.Errorf("%w …%s…: %s", …)` around the error of a call, with the text that stands in the middle.
abbrev pub named_result : {A : Type 0} → (Error → Error) → Result A → Result A
named_result f (ok a) = ok a
named_result f (err e) = err (f e)
named_result f panic = panic

unfoldable pub rename : {O A : Type 0} → (Error → Error) → Exec O A → Exec O A
rename f m s = let (r, t) = m s in (named_result f r, t)

module _ (P : Platform) (F : FlagSet) {L : SchemeLibrary} {R : Recorders} (rt : Runtime L R) where
  abbrev pub Setup : Type 0
  Setup = Exec rt.Manager (Unit {0})

  -- `Setup` of the provider configurations.
  abbrev pub config_controller : Options F R → ControllerSpec R
  config_controller o = record {
    name = rt.provider_config_controller_name provider_config_group_kind;
    max_concurrent_reconciles = o.max_concurrent_reconciles;
    reconciles = provider_config_group_kind;
    watches = some provider_config_usage_kind;
    desired_state_only = false;
    reconciler =
        Reconciler.of_configs provider_config_group_kind provider_config_usage_kind
          provider_config_usage_list_kind;
  }

  unfoldable pub setup_config : Options F R → Setup
  setup_config o = on_manager (rt.complete (config_controller o))

  -- `o.ChangeLogOptions.ChangeLogger`, read through the pointer if the feature is on.
  change_logger : Options F R → Exec rt.Manager (Option R.ChangeLogger)
  change_logger o =
      if F.enabled o.features rt.enable_alpha_change_logs
      then elim o.change_log_options [ none ↦ crash | some l ↦ pure (some l) ]
      else pure none

  abbrev metric_recorder : Option (MetricOptions R) → Option R.Metrics
  metric_recorder none = none
  metric_recorder (some m) = some m.mr_metrics

  abbrev state_recorder : MetricOptions R → R.StateMetrics → StateRecorder R
  state_recorder m metrics = record {
    metrics = metrics;
    list = record { group_version = binding_group_version; kind = "ServiceBindingList" };
    interval = m.poll_state_metric_interval;
  }

  -- The state metrics of bindings, if the options ask for them.
  record_state : Option (MetricOptions R) → Setup
  record_state none = pure tt
  record_state (some m) = elim m.mr_state_metrics [
    | none ↦ pure tt
    | some metrics ↦
        rename
          (wrap_at (of_binding_controller BindingControllerError.cannot_register_mr_state_recorder)
            service_binding_kind.kind)
          (on_manager (rt.add_recorder (state_recorder m metrics)))
  ]

  -- The controller of bindings, with its change logger.
  abbrev pub binding_controller :
      Options F R → rt.Manager → Option R.ChangeLogger → ControllerSpec R
  binding_controller o mgr logger = record {
    name = rt.controller_name service_binding_kind;
    max_concurrent_reconciles = o.max_concurrent_reconciles;
    reconciles = service_binding_kind;
    watches = none;
    desired_state_only = true;
    reconciler = Reconciler.of_bindings service_binding_kind (record {
      connector =
          OfBindings.connector_of_setup P (rt.impersonate mgr)
            (F.enabled o.features enable_alpha_rotate_bindings);
      poll_interval = o.poll_interval;
      management_policies = true;
      change_logger = logger;
      metric_recorder = metric_recorder o.metric_options;
    });
  }

  -- `Setup` of the bindings.
  unfoldable pub setup_bindings : Options F R → Setup
  unfolding change_logger record_state
  setup_bindings o = do
    mgr ← gets (λ m. m)
    logger ← change_logger o
    record_state o.metric_options
    on_manager (rt.complete (binding_controller o mgr logger))

  abbrev pub instance_controller : Options F R → rt.Manager → ControllerSpec R
  instance_controller o mgr = record {
    name = rt.controller_name service_instance_kind;
    max_concurrent_reconciles = o.max_concurrent_reconciles;
    reconciles = service_instance_kind;
    watches = none;
    desired_state_only = true;
    reconciler = Reconciler.of_instances service_instance_kind (record {
      connector = OfInstances.connector_of_setup P (rt.impersonate mgr);
      poll_interval = o.poll_interval;
      management_policies = true;
      change_logger = none;
      metric_recorder = none;
    });
  }

  -- `Setup` of the instances.
  unfoldable pub setup_instances : Options F R → Setup
  setup_instances o = gets (λ m. m) >>= λ mgr. on_manager (rt.complete (instance_controller o mgr))

  -- The entries of the map in `Setup`.
  abbrev pub Entry : Type 0
  Entry = String × Setup

  unfoldable pub controllers : Options F R → List Entry
  unfolding setup_config setup_bindings setup_instances
  controllers o =
      ("config", setup_config o)
      ∷ ("servicebinding", setup_bindings o)
      ∷ ("serviceinstance", setup_instances o)
      ∷ []

  -- The loop of `Setup`, over the entries in some order.
  unfoldable pub setup_all : List Entry → Setup
  setup_all [] = pure tt
  setup_all ((name, setup) ∷ rest) =
      rename (wrap_at (of_setup failed_to_setup_namespaced_controller) name) setup >> setup_all rest
