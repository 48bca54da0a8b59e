-- ===== src/Tests/OfMain.antt =====
-- A runtime at which the properties of `main` are run.
use provider_osb.Base.{
  String, Bool, true, false, ◌≡◌, ◌≢◌, ◌==◌, ◌||◌, refl, Option, none, some, List, [], ◌∷◌, arith,
  eq_iff,
}
use provider_osb.Errors.{Error, done}
use provider_osb.Exec.{◌>>=◌}
use provider_osb.Apis.{GroupVersion, SchemeLibrary, add_to_scheme}
use provider_osb.Apis.Kinds.{IsSchemeLibrary, KnowsAll, KnowsLists}
use provider_osb.Start.{enabled_features}
use provider_osb.Start.Runtime.{Recorders, Runtime, ControllerSpec, on_manager}
use provider_osb.Start.Controllers.{controllers, Entry, setup_all, rename}
use provider_osb.Start.Controllers.Registered.{IsRuntime}
use provider_osb.Start.Controllers.Loop.{Visits}
use provider_osb.Start.Main.{Outcome, main, options}
use provider_osb.Start.Main.Running.{IsRunning, main-IsRunning}
use provider_osb.Start.Main.Started.{HoldsScheme, IsOtherFlag, main-ne-crashed}
use provider_osb.Tests.{test_platform}
use provider_osb.Tests.OfStart.{test_flags, test_flags-IsFlagSet, test_line, nobody}

-- A scheme that recognises whole groups, and builders that never fail.
abbrev Groups : Type 0
Groups = String → Bool

abbrev Builder : Type 0
Builder = Groups → Option Error × Groups

run_each : List Builder → Groups → Option Error × Groups
run_each [] s = (none, s)
run_each (f ∷ fs) s =
    let (failed, t) = f s in elim failed [ none ↦ run_each fs t | some e ↦ (some e, t) ]

abbrev group_library : SchemeLibrary
group_library = record {
  Scheme = Groups;
  add_objects = λ g os s. (none, λ h. h == g.group || s h);
  run_builders = run_each;
  recognizes = λ s k. s k.group_version.group;
}

added_group : (g : String) (s : Groups) → (g == g || s g) ≡ true
added_group g s = ground (arith, eq_iff g g)

group-KnowsAll :
    (g : GroupVersion) (os : List (List String)) (s : Groups) (ks : List String)
    → KnowsAll group_library (group_library.add_objects g os s).1 g ks
group-KnowsAll g os s [] = tt
group-KnowsAll g os s (k ∷ ks) = (added_group g.group s, group-KnowsAll g os s ks)

group-KnowsLists :
    (g : GroupVersion) (os : List (List String)) (s : Groups) (rest : List (List String))
    → KnowsLists group_library (group_library.add_objects g os s).1 g rest
group-KnowsLists g os s [] = tt
group-KnowsLists g os s (ks ∷ rest) = (group-KnowsAll g os s ks, group-KnowsLists g os s rest)

group_library-IsSchemeLibrary : IsSchemeLibrary group_library
unfolding run_each
group_library-IsSchemeLibrary = record {
  run-nil = λ s. refl;
  run-done = λ f fs s ran. rw ran refl;
  run-failed = λ f fs s e failed. rw failed refl;
  added = λ g os s ran. group-KnowsLists g os s os;
  kept = λ g os s k known. ground (arith, known);
}

abbrev nothing_known : Groups
nothing_known h = false

abbrev unit_recorders : Recorders
unit_recorders = record { Metrics = Unit; StateMetrics = Unit; ChangeLogger = Unit }

-- A manager with its scheme and the controllers that were completed.
record TestManager : Type 0 where
  groups : Groups
  running : List (ControllerSpec unit_recorders)

abbrev empty_manager : TestManager
empty_manager = record { groups = nothing_known; running = [] }

abbrev test_runtime : Runtime group_library unit_recorders
test_runtime = record {
  RestConfig = Unit;
  Manager = TestManager;
  get_config = done tt;
  limit_rest_config = λ c n. c;
  new_manager = λ c o. done empty_manager;
  get_scheme = λ m. m.groups;
  set_scheme = λ s m. record m { groups = s };
  impersonate = λ m. nobody;
  complete = λ c m. (none, record m { running = c ∷ m.running });
  add_recorder = λ r m. (none, m);
  start = λ m. none;
  new_metric_recorder = tt;
  new_state_metrics = tt;
  leases_resource_lock = "leases";
  enable_alpha_change_logs = "EnableAlphaChangeLogs";
  controller_name = λ k. k.kind;
  provider_config_controller_name = λ k. k.kind;
}

test_runtime-IsRuntime : IsRuntime test_runtime
test_runtime-IsRuntime = record {
  running = λ m. m.running;
  completed = λ c m h. refl;
  refused = λ c m e h. absurd (ground arith);
  complete_identity = λ c m. refl;
  complete_scheme = λ c m. refl;
  recorded = λ r m. refl;
  recorder_identity = λ r m. refl;
  recorder_scheme = λ r m. refl;
}

test_runtime-HoldsScheme : HoldsScheme test_runtime
test_runtime-HoldsScheme = record { written = λ s m. refl; identity = λ s m. refl }

other_flag : IsOtherFlag "EnableAlphaChangeLogs"
other_flag = (
  ground (arith, eq_iff "EnableAlphaRotateBindings" "EnableAlphaChangeLogs"),
  ground (arith, eq_iff "EnableBetaManagementPolicies" "EnableAlphaChangeLogs"),
)

-- The entries in the order in which they are written.
abbrev written : List (Entry test_platform test_flags test_runtime)
written =
    controllers test_platform test_flags test_runtime
      (options test_platform test_flags test_runtime test_line)

written-Visits :
    Visits test_platform test_flags test_runtime test_runtime-IsRuntime
      (options test_platform test_flags test_runtime test_line)
      written
written-Visits e = (λ has. has, λ has. has)

main-ne-crashed_example :
    main test_platform test_flags test_runtime test_line written ≢ Outcome.crashed
main-ne-crashed_example =
    main-ne-crashed test_platform test_flags test_runtime test_line test_flags-IsFlagSet other_flag
      test_runtime-IsRuntime written written-Visits

main_stopped :
    (m : TestManager) × (main test_platform test_flags test_runtime test_line written
      ≡ Outcome.stopped m none)
unfolding ◌>>=◌ main add_to_scheme run_each setup_all controllers rename on_manager enabled_features
main_stopped = (_, refl)

main-IsRunning_example :
    IsRunning test_platform test_flags test_runtime test_line test_flags-IsFlagSet other_flag
      test_runtime-IsRuntime written written-Visits main_stopped.0
main-IsRunning_example =
    main-IsRunning test_platform test_flags test_runtime test_line test_flags-IsFlagSet other_flag
      test_runtime-IsRuntime written written-Visits test_runtime-HoldsScheme
      group_library-IsSchemeLibrary main_stopped.0 none main_stopped.1
