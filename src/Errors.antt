-- ===== src/Errors.antt =====
-- Go's `error` values as the provider builds them, and the two shapes of a fallible result.
mod OfBinding
mod OfInstance
mod OfUtil
mod OfControllers
mod OfSetup
use provider_osb.Base.{ℕ, String}
pub use OfBinding.*
pub use OfInstance.*
pub use OfUtil.*
pub use OfControllers.*
pub use OfSetup.*

-- A package-level error variable of the provider.
pub data Sentinel : Type 0 where
  of_binding : BindingError → Sentinel
  of_instance : InstanceError → Sentinel
  of_util : UtilError → Sentinel
  of_binding_controller : BindingControllerError → Sentinel
  of_instance_controller : InstanceControllerError → Sentinel
  of_setup : SetupError → Sentinel

-- `wrap s e` is `fmt.Errorf("%w: %s", s, fmt.Sprint(e))`: only `s` stays in the chain that
-- `errors.Is` walks. `http` is an error that `osbClient.IsHTTPError` recognises, with its status
-- code, and `other` is any other error of a callee outside the provider.
pub data Error : Type 0 where
  sentinel : Sentinel → Error
  wrap : Sentinel → Error → Error
  detail : Sentinel → String → Error
  wrap_at : Sentinel → String → Error → Error
  http : ℕ → Error
  other : String → Error

-- Go's `(A, error)`. What stands beside a non-nil error is dropped: no caller reads it.
pub data Fallible {ℓ} (A : Type ℓ) : Type ℓ where
  done : A → Fallible A
  fail : Error → Fallible A

infixl 5 ◌>>=◌ ◌>>◌
abbrev pub ◌>>=◌ {ℓ κ} : {A : Type ℓ} {B : Type κ} → Fallible A → (A → Fallible B) → Fallible B
done a >>= f = f a
fail e >>= f = fail e

abbrev pub ◌>>◌ {ℓ} : {B : Type ℓ} → Fallible (Unit {0}) → Fallible B → Fallible B
m >> k = m >>= λ _. k
