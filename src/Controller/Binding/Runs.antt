-- ===== src/Controller/Binding/Runs.antt =====
-- Sequences of the controller's methods on one binding.
use provider_osb.Base.{List, [], ◌∷◌}
use provider_osb.Platform.{Platform, World}
use provider_osb.Exec.{Session}
use provider_osb.Binding.{ServiceBinding}
use provider_osb.Controller.Binding.{External, observe, create, update, delete}

-- The calls of the managed reconciler, in any order.
pub data Operation : Type 0 where
  observing creating updating deleting : Operation

module _ (P : Platform) (w : World P (ServiceBinding P)) (c : External) where
  -- One call leaves the object and the calls as they are when it returns, or fails.
  unfoldable pub run : Operation → Session (ServiceBinding P) → Session (ServiceBinding P)
  unfolding observe create update delete
  run observing s = (observe P w c s).1
  run creating s = (create P w c s).1
  run updating s = (update P w c s).1
  run deleting s = (delete P w c s).1

  unfoldable pub run_all : List Operation → Session (ServiceBinding P) → Session (ServiceBinding P)
  unfolding run
  run_all [] s = s
  run_all (op ∷ ops) s = run_all ops (run op s)
