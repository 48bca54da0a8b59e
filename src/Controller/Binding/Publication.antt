-- ===== src/Controller/Binding/Publication.antt =====
-- The connection details that the controller of a binding publishes.
use provider_osb.Base.{◌≡◌, ◌⊎◌, true, false, none}
use provider_osb.Platform.{Platform, World}
use provider_osb.Exec.{Session}
use provider_osb.Binding.{ServiceBinding, is_state_in_progress}
use provider_osb.Binding.Operations.Observe.Published.{IsAnswered}
use provider_osb.Controller.{ExternalObservation}
use provider_osb.Controller.Binding.{External}

module _ (P : Platform) (w : World P (ServiceBinding P)) (c : External) where
  -- No details while an operation is in progress, or of a resource that is not up to date; else those
  -- of the broker's answer.
  abbrev pub IsPublished : Session (ServiceBinding P) → ExternalObservation → Type 0
  IsPublished s r =
      ((r.connection_details ≡ none)
        × ((is_state_in_progress P s.obj ≡ true) ⊎ (r.resource_up_to_date ≡ false)))
      ⊎ ((r.resource_up_to_date ≡ true) × IsAnswered P w s r.connection_details)
