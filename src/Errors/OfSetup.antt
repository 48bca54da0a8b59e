-- ===== src/Errors/OfSetup.antt =====
-- The error variable of internal/controller/osb.go, and the text that it is made with.
use provider_osb.Base.{String}

pub data SetupError : Type 0 where
  failed_to_setup_namespaced_controller : SetupError

-- The text given to `errors.New`.
unfoldable pub setup_message : SetupError → String
setup_message failed_to_setup_namespaced_controller = "failed to set up cluster controller "
