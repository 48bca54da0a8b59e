-- ===== src/Start/Main.antt =====
-- `main` of cmd/provider/main.go. Reading the command line, and the loggers and the registry of the
-- metrics, are left out.
pub mod Promises
pub mod Running
pub mod Started
use Prim.Native.Nat.{◌*◌}
use provider_osb.Base.{ℕ, String, Option, none, some, List, [], if◌then◌else◌}
use provider_osb.Errors.{Error, Fallible, done, fail}
use provider_osb.Apis.{SchemeLibrary, add_to_scheme}
use provider_osb.Platform.{Platform}
use provider_osb.Exec.{Session, Result, ok, err, panic}
use provider_osb.Start.{CommandLine, FlagSet, enabled_features, second}
use provider_osb.Start.Runtime.{Recorders, Options, ManagerOptions, Runtime}
use provider_osb.Start.Controllers.{Entry, controllers, setup_all}

-- How `main` ends: with the message of `kingpin.FatalIfError`, by a nil pointer that is dereferenced,
-- or with the manager that was started, whose error, if it returns one, is fatal with the message
-- "Cannot start controller manager".
pub data Outcome (M : Type 0) : Type 0 where
  fatal : String → Error → Outcome M
  crashed : Outcome M
  stopped : M → Option Error → Outcome M

module _ (P : Platform) (F : FlagSet) {L : SchemeLibrary} {R : Recorders} (rt : Runtime L R)
    (line : CommandLine) where
  unfoldable pub manager_options : ManagerOptions
  manager_options = record {
    sync_period = line.sync_interval;
    leader_election = line.leader_election;
    leader_election_id = "crossplane-leader-election-provider-osb";
    leader_election_resource_lock = rt.leases_resource_lock;
    lease_duration = 60 * second;
    renew_deadline = 50 * second;
  }

  abbrev pub options : Options F R
  options = record {
    max_concurrent_reconciles = line.max_reconcile_rate;
    poll_interval = line.poll_interval;
    features = enabled_features F line;
    metric_options = some (record {
      poll_state_metric_interval = line.poll_state_metric_interval;
      mr_metrics = rt.new_metric_recorder;
      mr_state_metrics = some rt.new_state_metrics;
    });
    change_log_options = none;
  }

  -- The last two steps. The order is that of the loop over the controllers.
  start : Result (Unit {0}) × Session rt.Manager → Outcome rt.Manager
  start (ok _, s) = Outcome.stopped s.obj (rt.start s.obj)
  start (err e, s) = Outcome.fatal "Cannot setup OSB controllers mode" e
  start (panic, s) = Outcome.crashed

  -- `apis.AddToScheme` writes through the manager's pointer to its scheme.
  with_scheme : List (Entry P F rt) → rt.Manager → Option Error × L.Scheme → Outcome rt.Manager
  unfolding start
  with_scheme order mgr (none, s) =
      start (setup_all P F rt order (record { obj = rt.set_scheme s mgr; calls = [] }))
  with_scheme order mgr (some e, s) = Outcome.fatal "Cannot add OSB APIs namespace to scheme" e

  with_manager : List (Entry P F rt) → Fallible rt.Manager → Outcome rt.Manager
  unfolding with_scheme
  with_manager order (fail e) = Outcome.fatal "Cannot create controller manager" e
  with_manager order (done mgr) = with_scheme order mgr (add_to_scheme L (rt.get_scheme mgr))

  -- `main`. The order is that of the loop over the map of the controllers.
  unfoldable pub main : List (Entry P F rt) → Outcome rt.Manager
  unfolding with_manager
  main order = elim rt.get_config [
    | fail e ↦ Outcome.fatal "Cannot get API server rest config" e
    | done cfg ↦
        with_manager order
          (rt.new_manager (rt.limit_rest_config cfg line.max_reconcile_rate) manager_options)
  ]
