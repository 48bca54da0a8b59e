-- ===== src/Start.antt =====
-- cmd/provider/main.go and internal/features/features.go: the flags of the command line that switch
-- features on, and what the controllers are made with. The flag set of crossplane-runtime is a
-- parameter.
pub mod Rotation
pub mod Runtime
pub mod Controllers
pub mod Main
use Prim.Native.Nat.{◌*◌}
use provider_osb.Base.{ℕ, String, Bool, true, false, ◌==◌, ◌≡◌, if◌then◌else◌}
use provider_osb.Platform.{Platform}
use provider_osb.Controller.{Impersonate}
use provider_osb.Controller.Binding.Connect.{Connector, connector_of_setup}

-- `EnableAlphaRotateBindings`
abbrev pub enable_alpha_rotate_bindings : String
enable_alpha_rotate_bindings = "EnableAlphaRotateBindings"

-- `EnableBetaManagementPolicies`
abbrev pub enable_beta_management_policies : String
enable_beta_management_policies = "EnableBetaManagementPolicies"

-- The flags of the command line. A duration is in nanoseconds, and the rate is not negative.
pub record CommandLine : Type 0 where
  pub debug : Bool
  pub leader_election : Bool
  pub sync_interval : ℕ
  pub poll_interval : ℕ
  pub poll_state_metric_interval : ℕ
  pub max_reconcile_rate : ℕ
  pub enable_management_policies : Bool
  pub enable_automatic_rotate_bindings : Bool

-- Nanoseconds of `time.Second`.
abbrev second : ℕ
second = 1_000_000_000

-- The defaults of the flags.
abbrev pub default_command_line : CommandLine
default_command_line = record {
  debug = false;
  leader_election = false;
  sync_interval = 3600 * second;
  poll_interval = 60 * second;
  poll_state_metric_interval = 5 * second;
  max_reconcile_rate = 10;
  enable_management_policies = false;
  enable_automatic_rotate_bindings = false;
}

-- `feature.Flags`
pub record FlagSet : Type 1 where
  pub Flags : Type 0
  pub no_flags : Flags
  pub enable : String → Flags → Flags
  pub enabled : Flags → String → Bool

-- Only what was enabled is.
pub record IsFlagSet (F : FlagSet) : Type 0 where
  pub enabled-no_flags : (f : String) → F.enabled F.no_flags f ≡ false
  pub enabled-enable :
      (f g : String) (s : F.Flags)
      → F.enabled (F.enable f s) g ≡ (if f == g then true else F.enabled s g)

module _ (F : FlagSet) where
  abbrev enable_if : Bool → String → F.Flags → F.Flags
  enable_if c f s = if c then F.enable f s else s

  -- The two tests in `main`.
  unfoldable pub enabled_features : CommandLine → F.Flags
  enabled_features line =
      enable_if line.enable_automatic_rotate_bindings enable_alpha_rotate_bindings
        (enable_if line.enable_management_policies enable_beta_management_policies F.no_flags)

  -- The connector of the controller of bindings, as `Setup` makes it from the options of `main`.
  unfoldable pub started_connector : (P : Platform) → CommandLine → Impersonate → Connector
  unfolding connector_of_setup
  started_connector P line impersonate =
      connector_of_setup P impersonate
        (F.enabled (enabled_features line) enable_alpha_rotate_bindings)
