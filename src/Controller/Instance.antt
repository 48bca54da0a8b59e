-- ===== src/Controller/Instance.antt =====
-- The external client of internal/controller/serviceinstance/serviceinstance.go.
pub mod Bounds
pub mod Availability
pub mod Connect
pub mod Convergence
pub mod Creation
pub mod Deletion
pub mod Panics
pub mod PlanChange
pub mod Polling
pub mod Refines
pub mod StickyKey
use provider_osb.Base.{Bool, true, false, Option, none, some, [], ◌∷◌, if◌then◌else◌}
use provider_osb.Errors.{sentinel, InstanceControllerError, of_instance_controller}
use provider_osb.Common.{Action, nothing_to_do, need_to_create, need_to_update}
use provider_osb.Osb.{OriginatingIdentity, GetInstanceResponse}
use provider_osb.Platform.{Platform, World, available, deleting}
use provider_osb.Exec.{Exec, pure, raise, gets, deref, modify, wrapping, ◌>>=◌, ◌>>◌}
use provider_osb.Instance.{ServiceInstance, set_conditions, is_instance_id_empty}
use provider_osb.Instance.Operations
use provider_osb.Instance.Operations.{provision, deprovision, observe_state}
use provider_osb.Controller.{
  ExternalObservation, ExternalCreation, ExternalUpdate, ExternalDelete, no_observation,
}

-- `external`, without its two clients.
pub record External : Type 0 where
  pub originating_identity : OriginatingIdentity
  pub disable_async : Bool

module _ (P : Platform) (w : World P (ServiceInstance P)) (c : External) where
  abbrev Method : Type 0 → Type 0
  Method A = Exec (ServiceInstance P) A

  -- The switch of `Observe`. The dashboard URL is read through the pointer that came back.
  pub observation : Action × Option GetInstanceResponse → Method ExternalObservation
  unfolding set_conditions
  observation (need_to_create, osb_instance) =
      pure (record no_observation { resource_exists = false })
  observation (nothing_to_do, osb_instance) =
      modify (set_conditions P available)
      >> pure (record no_observation { resource_exists = true; resource_up_to_date = true })
  observation (need_to_update, osb_instance) = deref osb_instance >>= λ r. pure (record {
    resource_exists = true;
    resource_up_to_date = false;
    connection_details = some (("dashboardURL", r.dashboard_url) ∷ []);
  })

  unfoldable pub observe : Method ExternalObservation
  unfolding is_instance_id_empty observation
  observe = gets (λ o. o) >>= λ si.
      if is_instance_id_empty P si
      then raise (sentinel (of_instance_controller InstanceControllerError.instance_id_not_set))
      else (wrapping (of_instance_controller InstanceControllerError.failed_to_observe_state)
            (observe_state P w c.originating_identity)
          >>= observation)

  unfoldable pub create : Method ExternalCreation
  create =
      wrapping (of_instance_controller InstanceControllerError.failed_to_provision)
        (provision P w c.disable_async)
      >> pure (record { connection_details = none; async = false })

  -- The connection details are an empty map that is not nil.
  unfoldable pub update : Method ExternalUpdate
  update =
      wrapping (of_instance_controller InstanceControllerError.failed_to_update)
        (Operations.update P w c.originating_identity c.disable_async)
      >> pure (record { connection_details = some [] })

  unfoldable pub delete : Method ExternalDelete
  unfolding set_conditions
  delete =
      modify (set_conditions P deleting)
      >> (wrapping (of_instance_controller InstanceControllerError.failed_to_deprovision)
            (deprovision P w c.originating_identity c.disable_async)
          >> pure (record { async = false }))
