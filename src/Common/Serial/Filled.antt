-- ===== src/Common/Serial/Filled.antt =====
-- The context of a request has members whatever the context of the resource.
use provider_osb.Base.{true, false, ◌≡◌, ◌≢◌, refl, none, some, [], ◌∷◌, arith}
use provider_osb.Errors.{done}
use provider_osb.Json.{Fields, end, field, GoMap, count_fields, distinct_keys, is_empty_map}
use provider_osb.Json.StringMap.{StringMap}
use provider_osb.Platform.{Platform}
use provider_osb.Platform.Laws.{IsJson}
use provider_osb.Common.{KubernetesOsbContext}
use provider_osb.Common.Serial.{context_fields, omit_empty, to_map}

-- The members of a context, for the two maps that may be left out.
abbrev members : KubernetesOsbContext → StringMap → StringMap → Fields
members c a b = context_fields (record c { namespace_annotations = a; instance_annotations = b })

members-distinct :
    (c : KubernetesOsbContext) (a b : StringMap) → distinct_keys (members c a b) ≡ true
unfolding context_fields omit_empty
members-distinct c none none = refl
members-distinct c none (some []) = refl
members-distinct c none (some (x ∷ b)) = refl
members-distinct c (some []) none = refl
members-distinct c (some []) (some []) = refl
members-distinct c (some []) (some (x ∷ b)) = refl
members-distinct c (some (x ∷ a)) none = refl
members-distinct c (some (x ∷ a)) (some []) = refl
members-distinct c (some (x ∷ a)) (some (y ∷ b)) = refl

counted : (m : Fields) → count_fields m ≢ 0 → is_empty_map (some m) ≡ false
unfolding is_empty_map
counted end h = absurd (h refl)
counted (field k v m) h = refl

module _ (P : Platform) (json : IsJson P) where
  -- If JSON texts are read back with as many keys as they were written with, the context of every
  -- resource is turned into a map, and that map is not empty.
  pub to_map-filled :
      (c : KubernetesOsbContext) → (m : GoMap) × (to_map P c ≡ done m) × (is_empty_map m ≡ false)
  unfolding to_map context_fields
  to_map-filled c =
      let m = context_fields c in
      (
        some (json.decoded m),
        ground (arith, json.marshal-object m, json.unmarshal-encode m),
        counted (json.decoded m) (
            ground (
              arith,
              json.count-decoded m
                  (members-distinct c c.namespace_annotations c.instance_annotations),
            )),
      )
