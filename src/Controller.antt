-- ===== src/Controller.antt =====
-- What the two controllers of internal/controller hand to and take from crossplane's managed
-- reconciler: the fields of its types that they set.
pub mod Binding
pub mod Instance
pub mod Identity
use provider_osb.Base.{ℕ, String, Bool, false, Option, none, some, List}
use provider_osb.Errors.{Error, Fallible, done, fail}
use provider_osb.Common.{ExtraMap}
use provider_osb.Platform.{Call}
use provider_osb.Exec.{Exec, lift, ask, ◌>>=◌}
use provider_osb.Util.{Credentials}

pub record ExternalObservation : Type 0 where
  pub resource_exists : Bool
  pub resource_up_to_date : Bool
  pub connection_details : Credentials

-- `async` is the additional detail "async" with the value "true".
pub record ExternalCreation : Type 0 where
  pub connection_details : Credentials
  pub async : Bool

pub record ExternalUpdate : Type 0 where
  pub connection_details : Credentials

pub record ExternalDelete : Type 0 where
  pub async : Bool

-- `managed.ExternalObservation{}`
abbrev pub no_observation : ExternalObservation
no_observation = record {
  resource_exists = false;
  resource_up_to_date = false;
  connection_details = none;
}

-- `mgr.GetConfig().Impersonate`
pub record Impersonate : Type 0 where
  pub user_name : String
  pub uid : String
  pub groups : List String
  pub extra : ExtraMap

-- An `error` that may be nil.
abbrev raised : Option Error → Fallible (Unit {0})
raised none = done tt
raised (some e) = fail e

-- A call of the outside world that returns an error or nil.
abbrev pub ask_error : {O : Type 0} → Call O → (ℕ → Option Error) → Exec O (Unit {0})
ask_error c answers = ask c (λ n. raised (answers n)) >>= lift
