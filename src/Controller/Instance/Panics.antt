-- ===== src/Controller/Instance/Panics.antt =====
-- The observation of a service instance by the controller does not panic.
use provider_osb.Base.{◌≢◌, arith}
use provider_osb.Platform.{Platform, World}
use provider_osb.Exec.{Session, panic, ◌>>=◌}
use provider_osb.Instance.{ServiceInstance}
use provider_osb.Instance.Operations.Panics.{PollsAnswered, observe_state-HasResponse}
use provider_osb.Controller.Instance.{External, observe}

-- If every poll that the broker's client answers without an error comes with a response, `Observe`
-- never dereferences a nil pointer, also where the client answers `GetInstance` with nil.
pub observe-ne-panic :
    (P : Platform) (w : World P (ServiceInstance P)) (c : External)
    (s : Session (ServiceInstance P))
    → PollsAnswered P w
    → (observe P w c s).0 ≢ panic
unfolding ◌>>=◌ observe
observe-ne-panic P w c s h =
    ground (arith, observe_state-HasResponse P w h c.originating_identity s)
