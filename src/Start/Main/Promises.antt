-- ===== src/Start/Main/Promises.antt =====
-- What the command line promises of the manager and of its controllers.
use provider_osb.Base.{String, ◌≡◌, true, none, some}
use provider_osb.Apis.{SchemeLibrary, GroupVersionKind}
use provider_osb.Controller.{Impersonate}
use provider_osb.Controller.Binding.Connect as OfBindings
use provider_osb.Controller.Instance.Connect as OfInstances
use provider_osb.Start.{CommandLine}
use provider_osb.Start.Runtime.{
  Recorders, Runtime, ManagerOptions, ReconcilerOptions, Reconciler, ControllerSpec,
}

-- A kind of one of the provider's groups.
abbrev kind_of : String → String → GroupVersionKind
kind_of group kind = record {
  group_version = record { group = group; version = "v1alpha1" };
  kind = kind;
}

abbrev pub service_binding : GroupVersionKind
service_binding = kind_of "binding.osb.m.crossplane.io" "ServiceBinding"

abbrev pub service_instance : GroupVersionKind
service_instance = kind_of "instance.osb.m.crossplane.io" "ServiceInstance"

abbrev pub config : String → GroupVersionKind
config = kind_of "osb.m.crossplane.io"

module _ {L : SchemeLibrary} {R : Recorders} (rt : Runtime L R) (line : CommandLine) where
  -- The options of the manager.
  pub record IsManaged (o : ManagerOptions) : Type 0 where
    pub sync_period : o.sync_period ≡ line.sync_interval
    pub leader_election : o.leader_election ≡ line.leader_election
    pub leader_election_id : o.leader_election_id ≡ "crossplane-leader-election-provider-osb"
    pub resource_lock : o.leader_election_resource_lock ≡ rt.leases_resource_lock
    pub lease_duration : o.lease_duration ≡ 60_000_000_000
    pub renew_deadline : o.renew_deadline ≡ 50_000_000_000

  -- What all reconcilers of resources are made with.
  pub record IsTimed {A : Type 0} (o : ReconcilerOptions R A) : Type 0 where
    pub poll_interval : o.poll_interval ≡ line.poll_interval
    pub management_policies : o.management_policies ≡ true
    pub change_logger : o.change_logger ≡ none

  -- The reconciler of bindings: its connector has the identity of the manager, and rotates if the
  -- command line says so.
  pub record IsBindingReconciler (who : Impersonate) (r : Reconciler R) : Type 0 where
    pub made_with : ReconcilerOptions R OfBindings.Connector
    pub made : r ≡ Reconciler.of_bindings service_binding made_with
    pub timed : IsTimed made_with
    pub metrics : made_with.metric_recorder ≡ some rt.new_metric_recorder
    pub rotates : made_with.connector.rotate_binding ≡ line.enable_automatic_rotate_bindings
    pub username : made_with.connector.originating_identity_value.username ≡ who.user_name
    pub uid : made_with.connector.originating_identity_value.uid ≡ who.uid
    pub groups : made_with.connector.originating_identity_value.groups ≡ who.groups

  pub record IsInstanceReconciler (who : Impersonate) (r : Reconciler R) : Type 0 where
    pub made_with : ReconcilerOptions R OfInstances.Connector
    pub made : r ≡ Reconciler.of_instances service_instance made_with
    pub timed : IsTimed made_with
    pub metrics : made_with.metric_recorder ≡ none
    pub username : made_with.connector.originating_identity_value.username ≡ who.user_name
    pub uid : made_with.connector.originating_identity_value.uid ≡ who.uid
    pub groups : made_with.connector.originating_identity_value.groups ≡ who.groups

  -- A controller of resources of a kind, with the limit of the command line.
  pub record IsController (k : GroupVersionKind) (c : ControllerSpec R) : Type 0 where
    pub name : c.name ≡ rt.controller_name k
    pub limit : c.max_concurrent_reconciles ≡ line.max_reconcile_rate
    pub reconciles : c.reconciles ≡ k
    pub watches : c.watches ≡ none
    pub desired_state_only : c.desired_state_only ≡ true

  -- The controller of the configurations, which watches their usages.
  pub record IsConfigController (c : ControllerSpec R) : Type 0 where
    pub name : c.name ≡ rt.provider_config_controller_name (config "ProviderConfig")
    pub limit : c.max_concurrent_reconciles ≡ line.max_reconcile_rate
    pub reconciles : c.reconciles ≡ config "ProviderConfig"
    pub watches : c.watches ≡ some (config "ProviderConfigUsage")
    pub reconciler :
        c.reconciler
        ≡ Reconciler.of_configs
            (config "ProviderConfig")
            (config "ProviderConfigUsage")
            (config "ProviderConfigUsageList")
