-- ===== src/Controller/Binding/Updates.antt =====
-- When an observation of a binding asks for an update.
use provider_osb.Base.{true, false, ◌≡◌, refl, arith}
use provider_osb.Common.{Action}
use provider_osb.Platform.{Platform, World}
use provider_osb.Exec.{Session, ok}
use provider_osb.Exec.Ensures.{Ensures, Ensures-pure, Ensures-wrapping, Ensures-bind, Ensures-then}
use provider_osb.Util.{Credentials}
use provider_osb.Binding.{ServiceBinding}
use provider_osb.Binding.Operations.Observe.Outcomes.{IsAllowed, observe_state-IsAllowed}
use provider_osb.Controller.{ExternalObservation}
use provider_osb.Controller.Binding.{External, observation, observe}

-- A resource that exists is up to date.
abbrev pub AsksNoUpdate : ExternalObservation → Type 0
AsksNoUpdate r = r.resource_exists ≡ true → r.resource_up_to_date ≡ true

module _ (P : Platform) (w : World P (ServiceBinding P)) (c : External)
    (off : c.rotate_binding ≡ false) where
  observation-AsksNoUpdate :
      (observed : Action × Credentials)
      → IsAllowed P w c.rotate_binding observed
      → Ensures AsksNoUpdate (observation P w c observed)
  unfolding observation
  observation-AsksNoUpdate (Action.need_to_create, creds) h =
      Ensures-pure _ (λ exists. ground (arith, exists))
  observation-AsksNoUpdate (Action.need_to_update, creds) h = absurd (ground (arith, h, off))
  observation-AsksNoUpdate (Action.nothing_to_do, creds) h =
      Ensures-then _ _ λ _. Ensures-pure _ (λ exists. refl)

  pub observe-AsksNoUpdate :
      (s : Session (ServiceBinding P)) (r : ExternalObservation)
      → (observe P w c s).0 ≡ ok r
      → AsksNoUpdate r
  unfolding observe
  observe-AsksNoUpdate =
      (Ensures-bind _ _
        (Ensures-wrapping _ _
          (record { at = observe_state-IsAllowed P w c.rotate_binding c.originating_identity }))
        observation-AsksNoUpdate).at
