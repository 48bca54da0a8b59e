-- ===== src/Binding/Texts.antt =====
-- The texts of apis/binding/v1alpha1/servicebinding_types.go that hold slices as JSON. A receiver is a
-- pointer, which may be nil.
use provider_osb.Base.{String, Option, none, some, is_empty, if◌then◌else◌}
use provider_osb.Errors.{Fallible, done}
use provider_osb.Platform.{Platform}

module _ (P : Platform) where
  -- `SerializableEndpoints.ToEndpoints`
  unfoldable pub to_endpoints : Option String → Fallible P.Endpoints
  to_endpoints none = done P.no_endpoints
  to_endpoints (some v) = if is_empty v then done P.no_endpoints else P.unmarshal_endpoints v

  -- `SerializableVolumeMounts.ToVolumeMounts`
  unfoldable pub to_volume_mounts : Option String → Fallible P.VolumeMounts
  to_volume_mounts none = done P.no_volume_mounts
  to_volume_mounts (some v) =
      if is_empty v then done P.no_volume_mounts else P.unmarshal_volume_mounts v

-- `SerializableEndpoints.String`
unfoldable pub endpoints_string : Option String → String
endpoints_string none = ""
endpoints_string (some v) = v
