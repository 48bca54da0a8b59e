-- ===== src/Apis/Types.antt =====
-- The list types of the packages under apis, and the types of apis/v1alpha1/storeconfig_types.go and
-- providerconfigusage_types.go. Metadata, conditions and the usage of a configuration are types of the
-- libraries, so they are parameters.
use provider_osb.Base.{List}
use provider_osb.Config.{ProviderConfig, ClusterProviderConfig}
use provider_osb.Platform.{Platform, Condition}
use provider_osb.Binding.{ServiceBinding}
use provider_osb.Instance.{ServiceInstance}

module _ (P : Platform) (ListMeta : Type 0) where
  pub record ServiceBindingList : Type 0 where
    pub list_meta : ListMeta
    pub items : List (ServiceBinding P)

  pub record ServiceInstanceList : Type 0 where
    pub list_meta : ListMeta
    pub items : List (ServiceInstance P)

  pub record ProviderConfigList : Type 0 where
    pub list_meta : ListMeta
    pub items : List (ProviderConfig P.ObjectMeta P.Selectors)

  pub record ClusterProviderConfigList : Type 0 where
    pub list_meta : ListMeta
    pub items : List (ClusterProviderConfig P.ObjectMeta P.Selectors)

module _ (P : Platform) (Usage : Type 0) where
  pub record ProviderConfigUsage : Type 0 where
    pub meta : P.ObjectMeta
    pub usage : Usage

  pub record ProviderConfigUsageList (ListMeta : Type 0) : Type 0 where
    pub list_meta : ListMeta
    pub items : List ProviderConfigUsage

-- `StoreConfigSpec` has no fields.
pub record StoreConfigSpec : Type 0 where

module _ (P : Platform) where
  pub record StoreConfigStatus : Type 0 where
    pub conditions : P.Conditions

  pub record StoreConfig : Type 0 where
    pub meta : P.ObjectMeta
    pub spec : StoreConfigSpec
    pub status : StoreConfigStatus

  -- `SetConditions`, of one condition.
  set_conditions : Condition → StoreConfig → StoreConfig
  set_conditions c sc = record sc {
    status = record { conditions = P.set_conditions sc.status.conditions c };
  }
