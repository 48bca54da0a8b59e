-- ===== src/Common.antt =====
-- apis/common/common_types.go and common_methods.go: the schema of a service instance, the OSB
-- context object and the actions that an observation may ask for.
pub mod Serial
use provider_osb.Base.{Option, List, String, ◌<>◌, Bool, ◌&&◌, ◌==◌}
use provider_osb.Config.{ObjectKey}
use provider_osb.Json.StringMap.{StringMap, string_maps_equal}

pub record NamespacedName : Type 0 where
  pub name : String
  pub namespace : String

-- `NamespacedName.String`
unfoldable pub namespaced_string : NamespacedName → String
namespaced_string n = n.namespace <> "/" <> n.name

-- `NamespacedName.ToObjectKey`
unfoldable pub to_object_key : NamespacedName → ObjectKey
to_object_key n = record { name = n.name; namespace = n.namespace }

pub record KubernetesOsbContext : Type 0 where
  pub platform : String
  pub namespace : String
  pub namespace_annotations : StringMap
  pub instance_annotations : StringMap
  pub cluster_id : String
  pub instance_name : String

pub record InstanceData : Type 0 where
  pub app_guid : String
  pub instance_id : String
  pub plan_id : String
  pub service_id : String
  pub context : KubernetesOsbContext
  pub parameters : String
  pub organization_guid : String
  pub space_guid : String

-- `InstanceData.Set`: the receiver is overwritten whole.
unfoldable pub set_instance_data : InstanceData → InstanceData → InstanceData
set_instance_data new_instance_data instance_data = new_instance_data

-- `map[string][]string`: `none` is the nil map.
abbrev pub ExtraMap : Type 0
ExtraMap = Option (List (String × List String))

-- `KubernetesOSBOriginatingIdentityExtra`: its raw JSON.
pub record KubernetesOsbOriginatingIdentityExtra : Type 0 where
  pub raw : String

pub record KubernetesOsbOriginatingIdentityValue : Type 0 where
  pub username : String
  pub uid : String
  pub groups : List String
  pub extra : Option KubernetesOsbOriginatingIdentityExtra

pub data Action : Type 0 where
  nothing_to_do need_to_create need_to_update : Action

-- `Action.String`
unfoldable pub action_string : Action → String
action_string Action.nothing_to_do = "NothingToDo"
action_string Action.need_to_create = "NeedToCreate"
action_string Action.need_to_update = "NeedToUpdate"

-- `reflect.DeepEqual` on two contexts.
unfoldable pub contexts_equal : KubernetesOsbContext → KubernetesOsbContext → Bool
contexts_equal a b =
    a.platform == b.platform
    && a.namespace == b.namespace
    && string_maps_equal a.namespace_annotations b.namespace_annotations
    && string_maps_equal a.instance_annotations b.instance_annotations
    && a.cluster_id == b.cluster_id
    && a.instance_name == b.instance_name
