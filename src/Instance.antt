-- ===== src/Instance.antt =====
-- apis/instance/v1alpha1: the ServiceInstance resource, its setters, its tests and the updates of
-- its status.
pub mod Requests
pub mod Lifecycle
pub mod Operations
pub mod StatusLaws
use provider_osb.Base.{
  String, Bool, true, false, not, ◌&&◌, Option, none, some, ◌==◌, is_empty, if◌then◌else◌,
}
use provider_osb.Config.{ProviderConfigReference}
use provider_osb.Common.{KubernetesOsbContext, InstanceData}
use provider_osb.Osb.{
  LastOperationState, in_progress, succeeded, failed, deleting, unknown, AsyncResponse,
  DeprovisionResponse,
}
use provider_osb.Platform.{Platform, Condition, available, creating}
use provider_osb.Util.{LastOperationStatusSetter}
use provider_osb.Util.Kube.{HasMeta}

pub record ServiceInstanceObservation : Type 0 where
  pub app_guid : String
  pub instance_id : String
  pub plan_id : String
  pub service_id : String
  pub context : KubernetesOsbContext
  pub parameters : String
  pub organization_guid : String
  pub space_guid : String
  pub dashboard_url : Option String
  pub last_operation_state : LastOperationState
  pub last_operation_key : String
  pub last_operation_description : String
  pub has_active_bindings : Bool

-- `metadata`, `spec.forProvider`, `spec.providerConfigRef`, the conditions of `status` and `status.atProvider`.
pub record ServiceInstance (P : Platform) : Type 0 where
  pub meta : P.ObjectMeta
  pub for_provider : InstanceData
  pub provider_config_reference : Option ProviderConfigReference
  pub conditions : P.Conditions
  pub at_provider : ServiceInstanceObservation

-- `s == osbClient.StateInProgress` and the like.
abbrev pub is_in_progress : LastOperationState → Bool
is_in_progress in_progress = true
is_in_progress succeeded = false
is_in_progress failed = false
is_in_progress deleting = false
is_in_progress (unknown t) = false

abbrev pub is_succeeded : LastOperationState → Bool
is_succeeded succeeded = true
is_succeeded in_progress = false
is_succeeded failed = false
is_succeeded deleting = false
is_succeeded (unknown t) = false

abbrev pub is_deleting : LastOperationState → Bool
is_deleting deleting = true
is_deleting in_progress = false
is_deleting succeeded = false
is_deleting failed = false
is_deleting (unknown t) = false

module _ (P : Platform) where
  abbrev pub meta_of : HasMeta P (ServiceInstance P)
  meta_of = record { get_meta = λ si. si.meta; set_meta = λ m si. record si { meta = m } }

  unfoldable pub set_conditions : Condition → ServiceInstance P → ServiceInstance P
  set_conditions c si = record si { conditions = P.set_conditions si.conditions c }

  unfoldable pub set_last_operation_state :
      LastOperationState → ServiceInstance P → ServiceInstance P
  set_last_operation_state state si = record si {
    at_provider = record si.at_provider { last_operation_state = state };
  }

  unfoldable pub set_last_operation_description : String → ServiceInstance P → ServiceInstance P
  set_last_operation_description desc si = record si {
    at_provider = record si.at_provider { last_operation_description = desc };
  }

  unfoldable pub set_last_operation_key : String → ServiceInstance P → ServiceInstance P
  set_last_operation_key operation_key si = record si {
    at_provider = record si.at_provider { last_operation_key = operation_key };
  }

  -- The methods behind `LastOperationStatusSetter`.
  unfoldable pub last_operation_status_setter : LastOperationStatusSetter (ServiceInstance P)
  unfolding set_conditions set_last_operation_state set_last_operation_description
  last_operation_status_setter = record {
    set_last_operation_state = set_last_operation_state;
    set_last_operation_description = set_last_operation_description;
    set_conditions = set_conditions;
  }

  unfoldable pub is_deletable : ServiceInstance P → Bool
  is_deletable si =
      P.was_deleted si.meta
      && is_succeeded si.at_provider.last_operation_state
      && not si.at_provider.has_active_bindings

  unfoldable pub has_last_operation : ServiceInstance P → Bool
  has_last_operation si = not (is_empty si.at_provider.last_operation_key)

  unfoldable pub is_state_in_progress : ServiceInstance P → Bool
  is_state_in_progress si = is_in_progress si.at_provider.last_operation_state

  unfoldable pub is_state_deleting : ServiceInstance P → Bool
  is_state_deleting si = is_deleting si.at_provider.last_operation_state

  unfoldable pub is_already_deleted : ServiceInstance P → Bool
  is_already_deleted si = is_empty si.for_provider.instance_id

  unfoldable pub has_active_bindings : ServiceInstance P → Bool
  has_active_bindings si = si.at_provider.has_active_bindings

  unfoldable pub has_plan_id : ServiceInstance P → Bool
  has_plan_id si = not (is_empty si.for_provider.plan_id)

  unfoldable pub is_plan_id_different : ServiceInstance P → String → Bool
  is_plan_id_different si osb_plan_id = not (si.for_provider.plan_id == osb_plan_id)

  unfoldable pub is_instance_id_empty : ServiceInstance P → Bool
  is_instance_id_empty si = is_empty si.for_provider.instance_id

  unfoldable pub set_status_context_from_provider_context : ServiceInstance P → ServiceInstance P
  set_status_context_from_provider_context si = record si {
    at_provider = record si.at_provider { context = si.for_provider.context };
  }

  unfoldable pub set_dashboard_url : Option String → ServiceInstance P → ServiceInstance P
  set_dashboard_url url si = record si {
    at_provider = record si.at_provider { dashboard_url = url };
  }

  -- `if key != nil { si.SetLastOperationKey(*key) }`
  unfoldable pub set_key_if_present : Option String → ServiceInstance P → ServiceInstance P
  unfolding set_last_operation_key
  set_key_if_present none si = si
  set_key_if_present (some key) si = set_last_operation_key key si

  unfoldable pub update_status_from_osb : AsyncResponse → ServiceInstance P → ServiceInstance P
  unfolding set_status_context_from_provider_context set_dashboard_url set_conditions
      set_last_operation_state set_key_if_present
  update_status_from_osb resp si =
      let si' =
        set_dashboard_url resp.dashboard_url (set_status_context_from_provider_context si) in
      if resp.async
      then set_key_if_present resp.operation_key
          (set_last_operation_state in_progress (set_conditions creating si'))
      else set_last_operation_state succeeded (set_conditions available si')

  -- `UpdateStatus`, which writes the fields of the status itself.
  unfoldable pub update_status : AsyncResponse → ServiceInstance P → ServiceInstance P
  update_status resp si =
      let at_provider = record si.at_provider {
        context = si.for_provider.context;
        dashboard_url = resp.dashboard_url;
      } in
      if resp.async
      then record si {
        conditions = P.set_conditions si.conditions creating;
        at_provider = record at_provider {
          last_operation_state = in_progress;
          last_operation_key = elim resp.operation_key [
            | none ↦ si.at_provider.last_operation_key
            | some key ↦ key
          ];
        };
      }
      else record si {
        conditions = P.set_conditions si.conditions available;
        at_provider = record at_provider { last_operation_state = succeeded };
      }

  unfoldable pub update_status_for_async_deletion :
      DeprovisionResponse → ServiceInstance P → ServiceInstance P
  unfolding set_last_operation_state set_key_if_present
  update_status_for_async_deletion resp si =
      set_key_if_present resp.operation_key (set_last_operation_state deleting si)
