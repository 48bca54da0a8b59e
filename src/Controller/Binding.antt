-- ===== src/Controller/Binding.antt =====
-- The external client of internal/controller/servicebinding/servicebinding.go.
pub mod Bounds
pub mod Connect
pub mod Convergence
pub mod Creation
pub mod Deletion
pub mod Naming
pub mod Panics
pub mod Polling
pub mod Publication
pub mod Readiness
pub mod Runs
pub mod Saved
pub mod Unsaved
pub mod Updates
pub mod Waiting
use provider_osb.Base.{Bool, true, false, Option, none, some}
use provider_osb.Errors.{wrap, BindingControllerError, of_binding_controller, Fallible, done, fail}
use provider_osb.Common.{Action, nothing_to_do, need_to_create, need_to_update}
use provider_osb.Osb.{OriginatingIdentity, BindResponse}
use provider_osb.Platform.{Platform, World, available, deleting}
use provider_osb.Exec.{Exec, pure, crash, lift, gets, modify, wrapping, ◌>>=◌, ◌>>◌}
use provider_osb.Util.{Credentials, get_creds_from_response}
use provider_osb.Binding.{
  ServiceBinding, set_conditions, create_response_data_with_binding_parameters,
  set_response_data_in_status,
}
use provider_osb.Binding.Operations.{bind, un_bind, trigger_rotation}
use provider_osb.Binding.Operations.Observe.{observe_state}
use provider_osb.Controller.{
  ExternalObservation, ExternalCreation, ExternalUpdate, ExternalDelete, no_observation,
}

-- `external`, without its two clients.
pub record External : Type 0 where
  pub originating_identity : OriginatingIdentity
  pub disable_async : Bool
  pub rotate_binding : Bool

-- `if err != nil { return …, fmt.Errorf("%w: %s", e, fmt.Sprint(err)) }`
abbrev pub wrap_failure : {A : Type 0} → BindingControllerError → Fallible A → Fallible A
wrap_failure e (done a) = done a
wrap_failure e (fail cause) = fail (wrap (of_binding_controller e) cause)

module _ (P : Platform) (w : World P (ServiceBinding P)) (c : External) where
  abbrev Method : Type 0 → Type 0
  Method A = Exec (ServiceBinding P) A

  -- The switch of `Observe`.
  observation : Action × Credentials → Method ExternalObservation
  unfolding set_conditions
  observation (need_to_create, credentials) =
      pure (record no_observation { resource_exists = false })
  observation (need_to_update, credentials) =
      pure (record no_observation { resource_exists = true; resource_up_to_date = false })
  observation (nothing_to_do, credentials) =
      modify (set_conditions P available)
      >> pure (record {
        resource_exists = true;
        resource_up_to_date = true;
        connection_details = credentials;
      })

  unfoldable pub observe : Method ExternalObservation
  unfolding observation
  observe =
      wrapping (of_binding_controller BindingControllerError.failed_to_observe_state)
        (observe_state P w c.rotate_binding c.originating_identity)
      >>= observation

  -- The end of `Create` for a synchronous response.
  created : BindResponse P.Endpoints P.VolumeMounts → Method ExternalCreation
  unfolding get_creds_from_response create_response_data_with_binding_parameters
      set_response_data_in_status
  created bind_response = do
    creds ← lift (
        wrap_failure BindingControllerError.extract_creds_failed
          (get_creds_from_response P bind_response.credentials))
    sb ← gets (λ o. o)
    response_data ← lift (
        wrap_failure BindingControllerError.create_resp_data_failed
          (create_response_data_with_binding_parameters P sb bind_response))
    sb' ← lift (
        wrap_failure BindingControllerError.update_status_failed
          (set_response_data_in_status P response_data sb))
    modify (λ _. sb')
    pure (record { connection_details = creds; async = false })

  after_bind : Option (BindResponse P.Endpoints P.VolumeMounts) × Bool → Method ExternalCreation
  unfolding created
  after_bind (bind_response, true) = pure (record { connection_details = none; async = true })
  after_bind (none, false) = crash
  after_bind (some bind_response, false) = created bind_response

  unfoldable pub create : Method ExternalCreation
  unfolding after_bind
  create =
      wrapping (of_binding_controller BindingControllerError.failed_to_bind_service_binding)
        (bind P w c.originating_identity c.disable_async)
      >>= after_bind

  unfoldable pub update : Method ExternalUpdate
  update =
      wrapping (of_binding_controller BindingControllerError.osb_rotating_request_failed)
        (trigger_rotation P w c.originating_identity)
      >>= λ creds. pure (record { connection_details = creds })

  unfoldable pub delete : Method ExternalDelete
  unfolding set_conditions
  delete = do
    modify (set_conditions P deleting)
    is_async ←
        wrapping (of_binding_controller BindingControllerError.failed_to_un_bind_service_binding)
          (un_bind P w c.originating_identity)
    pure (record { async = is_async })
