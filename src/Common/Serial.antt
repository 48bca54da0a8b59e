-- ===== src/Common/Serial.antt =====
-- The conversions of apis/common/common_types.go between JSON texts, structs and maps.
pub mod Filled
use provider_osb.Base.{String, none, some, [], ◌∷◌, is_empty, if◌then◌else◌}
use provider_osb.Errors.{Fallible, done, ◌>>=◌}
use provider_osb.Json.{Value, text, object, null, Fields, end, field, GoMap}
use provider_osb.Json.StringMap.{Entries, StringMap}
use provider_osb.Platform.{Platform}
use provider_osb.Common.{KubernetesOsbContext, ExtraMap, KubernetesOsbOriginatingIdentityExtra}

unfoldable pub entry_fields : Entries → Fields
entry_fields [] = end
entry_fields ((k, v) ∷ m) = field k (text v) (entry_fields m)

-- A member tagged `omitempty` is left out when its map is nil or has no entries.
unfoldable pub omit_empty : String → StringMap → Fields → Fields
unfolding entry_fields
omit_empty k none rest = rest
omit_empty k (some []) rest = rest
omit_empty k (some ((j, v) ∷ m)) rest = field k (object (entry_fields ((j, v) ∷ m))) rest

-- The JSON object that the field tags of `KubernetesOSBContext` describe.
unfoldable pub context_fields : KubernetesOsbContext → Fields
context_fields c = field "platform" (text c.platform) (
    field "namespace" (text c.namespace) (
      omit_empty "namespaceAnnotations" c.namespace_annotations (
        omit_empty "instanceAnnotations" c.instance_annotations (
          field "clusterId" (text c.cluster_id)
            (field "instanceName" (text c.instance_name) end)))))

-- The JSON value of a `map[string]any`.
unfoldable pub map_value : GoMap → Value
map_value none = null
map_value (some m) = object m

module _ (P : Platform) where
  -- `SerializableParameters.ToParameters`, of a receiver that is not nil.
  unfoldable pub to_parameters : String → Fallible GoMap
  to_parameters v = if is_empty v then done (some end) else P.unmarshal_map v

  -- `KubernetesOSBContext.ToMap`
  unfoldable pub to_map : KubernetesOsbContext → Fallible GoMap
  unfolding context_fields
  to_map c = do b ← P.marshal_value (object (context_fields c)); P.unmarshal_map b

  -- `KubernetesOSBOriginatingIdentityExtra.FromMap`: the receiver as it is afterwards, unless it fails
  -- and stays as it was.
  unfoldable pub from_map : ExtraMap → Fallible KubernetesOsbOriginatingIdentityExtra
  from_map m = do raw ← P.marshal_extra m; done (record { raw = raw })

  -- `KubernetesOSBOriginatingIdentityExtra.ToMap`
  unfoldable pub extra_to_map : KubernetesOsbOriginatingIdentityExtra → Fallible ExtraMap
  extra_to_map e = P.unmarshal_extra e.raw
