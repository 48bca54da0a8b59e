-- ===== src/Apis.antt =====
-- The groups and kinds of the packages under apis, and apis/osb.go, which adds them to a scheme. The
-- scheme and the builders of Kubernetes are parameters.
pub mod Kinds
pub mod Types
use provider_osb.Base.{String, ◌≡◌, true, Bool, Option, none, some, List, [], ◌∷◌}
use provider_osb.Errors.{Error}

-- `schema.GroupVersion`
pub record GroupVersion : Type 0 where
  pub group : String
  pub version : String

-- `schema.GroupVersionKind`
pub record GroupVersionKind : Type 0 where
  pub group_version : GroupVersion
  pub kind : String

-- `SchemeGroupVersion` of the package of bindings.
abbrev pub binding_group_version : GroupVersion
binding_group_version = record { group = "binding.osb.m.crossplane.io"; version = "v1alpha1" }

-- `SchemeGroupVersion` of the package of instances.
abbrev pub instance_group_version : GroupVersion
instance_group_version = record { group = "instance.osb.m.crossplane.io"; version = "v1alpha1" }

-- `SchemeGroupVersion` of the package of configurations.
abbrev pub config_group_version : GroupVersion
config_group_version = record { group = "osb.m.crossplane.io"; version = "v1alpha1" }

-- `SchemeGroupVersion.WithKind` for the kinds that the code names.
abbrev pub service_binding_kind : GroupVersionKind
service_binding_kind = record { group_version = binding_group_version; kind = "ServiceBinding" }

abbrev pub service_instance_kind : GroupVersionKind
service_instance_kind = record { group_version = instance_group_version; kind = "ServiceInstance" }

abbrev pub provider_config_group_kind : GroupVersionKind
provider_config_group_kind = record {
  group_version = config_group_version;
  kind = "ProviderConfig";
}

abbrev pub cluster_provider_config_group_kind : GroupVersionKind
cluster_provider_config_group_kind = record {
  group_version = config_group_version;
  kind = "ClusterProviderConfig";
}

abbrev pub provider_config_usage_kind : GroupVersionKind
provider_config_usage_kind = record {
  group_version = config_group_version;
  kind = "ProviderConfigUsage";
}

abbrev pub provider_config_usage_list_kind : GroupVersionKind
provider_config_usage_list_kind = record {
  group_version = config_group_version;
  kind = "ProviderConfigUsageList";
}

-- What each `init` registers with the builder of its package, by the names of the Go types.
abbrev pub binding_objects : List String
binding_objects = "ServiceBinding" ∷ "ServiceBindingList" ∷ []

abbrev pub instance_objects : List String
instance_objects = "ServiceInstance" ∷ "ServiceInstanceList" ∷ []

abbrev pub config_objects : List String
config_objects =
    "ProviderConfig" ∷ "ProviderConfigList" ∷ "ClusterProviderConfig" ∷ "ClusterProviderConfigList"
    ∷ []

abbrev pub usage_objects : List String
usage_objects = "ProviderConfigUsage" ∷ "ProviderConfigUsageList" ∷ []

abbrev pub store_objects : List String
store_objects = "StoreConfig" ∷ "StoreConfigList" ∷ []

-- `runtime.Scheme`. `add_objects` is `AddToScheme` of a builder with a group version, with which these
-- lists of objects were registered, and `run_builders` is `AddToScheme` of a `runtime.SchemeBuilder`.
pub record SchemeLibrary : Type 1 where
  pub Scheme : Type 0
  pub add_objects : GroupVersion → List (List String) → Scheme → Option Error × Scheme
  pub run_builders : List (Scheme → Option Error × Scheme) → Scheme → Option Error × Scheme
  pub recognizes : Scheme → GroupVersionKind → Bool

module _ (L : SchemeLibrary) where
  -- `AddToSchemes`, after `init`.
  unfoldable pub add_to_schemes : List (L.Scheme → Option Error × L.Scheme)
  add_to_schemes =
      L.add_objects config_group_version (config_objects ∷ usage_objects ∷ store_objects ∷ [])
      ∷ L.add_objects instance_group_version (instance_objects ∷ [])
      ∷ L.add_objects binding_group_version (binding_objects ∷ [])
      ∷ []

  -- `AddToScheme`
  unfoldable pub add_to_scheme : L.Scheme → Option Error × L.Scheme
  unfolding add_to_schemes
  add_to_scheme = L.run_builders add_to_schemes
