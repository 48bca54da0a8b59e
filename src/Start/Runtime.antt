-- ===== src/Start/Runtime.antt =====
-- What the functions that set the controllers up take from crossplane-runtime and controller-runtime:
-- the manager and the builders of controllers are parameters.
use provider_osb.Base.{ℕ, String, Bool, Option}
use provider_osb.Errors.{Error, Fallible}
use provider_osb.Apis.{GroupVersionKind, SchemeLibrary}
use provider_osb.Controller.{Impersonate}
use provider_osb.Controller.Binding.Connect as OfBindings
use provider_osb.Controller.Instance.Connect as OfInstances
use provider_osb.Exec.{Exec, kube_result}
use provider_osb.Start.{FlagSet}

-- The recorders and loggers of the libraries.
pub record Recorders : Type 1 where
  pub Metrics : Type 0
  pub StateMetrics : Type 0
  pub ChangeLogger : Type 0

-- `controller.MetricOptions`
pub record MetricOptions (R : Recorders) : Type 0 where
  pub poll_state_metric_interval : ℕ
  pub mr_metrics : R.Metrics
  pub mr_state_metrics : Option R.StateMetrics

-- `controller.Options`, without the logger and the rate limiter. `none` is a nil pointer.
pub record Options (F : FlagSet) (R : Recorders) : Type 0 where
  pub max_concurrent_reconciles : ℕ
  pub poll_interval : ℕ
  pub features : F.Flags
  pub metric_options : Option (MetricOptions R)
  pub change_log_options : Option R.ChangeLogger

-- The options of `managed.NewReconciler` that the two controllers give.
pub record ReconcilerOptions (R : Recorders) (Connector : Type 0) : Type 0 where
  pub connector : Connector
  pub poll_interval : ℕ
  pub management_policies : Bool
  pub change_logger : Option R.ChangeLogger
  pub metric_recorder : Option R.Metrics

-- The reconciler of a controller, and what it is for.
pub data Reconciler (R : Recorders) : Type 0 where
  of_configs : GroupVersionKind → GroupVersionKind → GroupVersionKind → Reconciler R
  of_bindings : GroupVersionKind → ReconcilerOptions R OfBindings.Connector → Reconciler R
  of_instances : GroupVersionKind → ReconcilerOptions R OfInstances.Connector → Reconciler R

-- What the builder of `ctrl.NewControllerManagedBy` was given when it is completed.
pub record ControllerSpec (R : Recorders) : Type 0 where
  pub name : String
  pub max_concurrent_reconciles : ℕ
  pub reconciles : GroupVersionKind
  pub watches : Option GroupVersionKind
  pub desired_state_only : Bool
  pub reconciler : Reconciler R

-- `statemetrics.NewMRStateRecorder` for the lists of a kind.
pub record StateRecorder (R : Recorders) : Type 0 where
  pub metrics : R.StateMetrics
  pub list : GroupVersionKind
  pub interval : ℕ

-- `ctrl.Options`
pub record ManagerOptions : Type 0 where
  pub sync_period : ℕ
  pub leader_election : Bool
  pub leader_election_id : String
  pub leader_election_resource_lock : String
  pub lease_duration : ℕ
  pub renew_deadline : ℕ

pub record Runtime (L : SchemeLibrary) (R : Recorders) : Type 1 where
  pub RestConfig : Type 0
  pub Manager : Type 0
  pub get_config : Fallible RestConfig
  pub limit_rest_config : RestConfig → ℕ → RestConfig
  pub new_manager : RestConfig → ManagerOptions → Fallible Manager
  pub get_scheme : Manager → L.Scheme
  pub set_scheme : L.Scheme → Manager → Manager
  pub impersonate : Manager → Impersonate
  pub complete : ControllerSpec R → Manager → Option Error × Manager
  pub add_recorder : StateRecorder R → Manager → Option Error × Manager
  pub start : Manager → Option Error
  pub new_metric_recorder : R.Metrics
  pub new_state_metrics : R.StateMetrics
  pub leases_resource_lock : String
  pub enable_alpha_change_logs : String
  pub controller_name : GroupVersionKind → String
  pub provider_config_controller_name : GroupVersionKind → String

-- A call of the manager that may fail.
unfoldable pub on_manager : {M : Type 0} → (M → Option Error × M) → Exec M (Unit {0})
on_manager f s = let (e, m) = f s.obj in (kube_result e, record s { obj = m })
