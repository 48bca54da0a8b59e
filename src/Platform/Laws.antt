-- ===== src/Platform/Laws.antt =====
-- What the documentation of crossplane-runtime and Kubernetes says of the metadata helpers.
use provider_osb.Base.{String, ◌≡◌, ◌≢◌, ◌==◌, true, false, some, if◌then◌else◌}
use provider_osb.Errors.{done}
use provider_osb.Common.Serial.{map_value}
use provider_osb.Json.{GoMap, deep_equal_maps, Fields, object, distinct_keys, count_fields}
use provider_osb.Common.{KubernetesOsbOriginatingIdentityValue}
use provider_osb.Platform.{Platform}

-- An annotation that was set is read back, and the helpers of one matter leave the others alone.
pub record IsLawful (P : Platform) : Type 0 where
  pub get-set_external_name :
      (m : P.ObjectMeta) (id : String) → P.get_external_name (P.set_external_name m id) ≡ id
  pub exists-add :
      (m : P.ObjectMeta) (f g : String)
      → P.finalizer_exists (P.add_finalizer m f) g
        ≡ (if f == g then true else P.finalizer_exists m g)
  pub exists-remove :
      (m : P.ObjectMeta) (f g : String)
      → P.finalizer_exists (P.remove_finalizer m f) g
        ≡ (if f == g then false else P.finalizer_exists m g)

-- encoding/json: an object has a text, and reading that text gives a map with as many keys, if no key
-- stands twice in it.
pub record IsJson (P : Platform) : Type 0 where
  pub encode : Fields → String
  pub decoded : Fields → Fields
  pub marshal-object : (m : Fields) → P.marshal_value (object m) ≡ done (encode m)
  pub unmarshal-encode : (m : Fields) → P.unmarshal_map (encode m) ≡ done (some (decoded m))
  pub count-decoded :
      (m : Fields) → distinct_keys m ≡ true → count_fields (decoded m) ≡ count_fields m

-- encoding/json: the text of a struct is not empty.
pub record WritesIdentity (P : Platform) : Type 0 where
  pub filled :
      (v : KubernetesOsbOriginatingIdentityValue) (t : String)
      → P.marshal_identity v ≡ done t
      → t ≢ ""

-- encoding/json: what was written is read back. A map comes back deeply equal, since the order of its
-- entries is not kept.
pub record ReadsBack (P : Platform) : Type 0 where
  pub map_read :
      (m : GoMap) (t : String)
      → P.marshal_value (map_value m) ≡ done t
      → (t ≢ "") × ((n : GoMap) × (P.unmarshal_map t ≡ done n) × (deep_equal_maps n m ≡ true))
  pub endpoints_read :
      (e : P.Endpoints) (t : String)
      → P.marshal_endpoints (some e) ≡ done t
      → (t ≢ "") × (P.unmarshal_endpoints t ≡ done e)
  pub volume_mounts_read :
      (v : P.VolumeMounts) (t : String)
      → P.marshal_volume_mounts (some v) ≡ done t
      → (t ≢ "") × (P.unmarshal_volume_mounts t ≡ done v)
