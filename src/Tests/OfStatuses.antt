-- ===== src/Tests/OfStatuses.antt =====
-- A status at which the property of what is read back from it is run.
use Prim.Native.String.{[], ◌∷◌}
use provider_osb.Base.{
  [] as no_conditions, String, Bool, true, false, ap, ◌∙◌, ◌≡◌, ◌≢◌, eq_iff, refl, Option, none,
  some, arith,
}
use provider_osb.Errors.{Fallible, done, fail, other}
use provider_osb.Json.{Value, object, end, field, GoMap, deep_equal, deep_equal_maps}
use provider_osb.Common.Serial.{map_value}
use provider_osb.Osb.{GetBindingResponse}
use provider_osb.Platform.{Platform}
use provider_osb.Platform.Laws.{ReadsBack}
use provider_osb.Binding.{ServiceBinding, update_binding_status_from_response}
use provider_osb.Binding.StatusLaws.{ReadsAs, SameOperation, update_status-ReadsAs}
use provider_osb.Tests.{test_platform}
use provider_osb.Tests.OfBindings.{bound}

-- Only the empty object is written as a value.
abbrev write_value : Value → Fallible String
write_value (object end) = done "{}"
write_value _ = fail (other "not written")

-- A slice is a text, which is written with a mark before it.
abbrev pub write_slice : Option String → Fallible String
write_slice none = done "null"
write_slice (some e) = done ("[" ∷ e)

abbrev pub read_slice : String → Fallible String
read_slice [] = fail (other "unexpected end of JSON input")
read_slice (c ∷ e) = done e

abbrev marking_platform : Platform
marking_platform = record test_platform {
  marshal_value = write_value;
  unmarshal_map = λ t. done (some end);
  marshal_endpoints = write_slice;
  marshal_volume_mounts = write_slice;
  unmarshal_endpoints = read_slice;
  unmarshal_volume_mounts = read_slice;
}

marking-map_read :
    (m : GoMap) (t : String)
    → write_value (map_value m) ≡ done t
    → (t ≢ "")
      × ((n : GoMap) × (marking_platform.unmarshal_map t ≡ done n) × (deep_equal_maps n m ≡ true))
unfolding map_value deep_equal_maps deep_equal
marking-map_read none t h = absurd (ground arith)
marking-map_read (some end) t h = (ground (arith, eq_iff "{}" ""), (some end, refl, refl))
marking-map_read (some (field k v m)) t h = absurd (ground arith)

abbrev is_marked : String → Bool
is_marked [] = false
is_marked (c ∷ e) = true

pub marking-slice_read :
    (e t : String) → write_slice (some e) ≡ done t → (t ≢ "") × (read_slice t ≡ done e)
marking-slice_read e t h =
    let written : "[" ∷ e ≡ t = ground (arith, h) in
    (
      λ empty.
          let marked : true ≡ false = ap is_marked (written ∙ empty) in
          absurd (ground (arith, marked)),
      rw (← written) refl,
    )

marking_platform-ReadsBack : ReadsBack marking_platform
marking_platform-ReadsBack = record {
  map_read = marking-map_read;
  endpoints_read = marking-slice_read;
  volume_mounts_read = marking-slice_read;
}

abbrev observed : GetBindingResponse String String
observed = record {
  credentials = none;
  parameters = some end;
  endpoints = some "host";
  volume_mounts = none;
  route_service_url = some "url";
  syslog_drain_url = none;
  metadata = none;
}

abbrev status_before : ServiceBinding marking_platform
status_before = record {
  meta = bound.obj.meta;
  for_provider = bound.obj.for_provider;
  provider_config_reference = none;
  conditions = no_conditions;
  at_provider = bound.obj.at_provider;
}

abbrev status_after : ServiceBinding marking_platform
status_after = record status_before {
  at_provider = record status_before.at_provider {
    endpoints = "[host";
    volume_mounts = "null";
    route_service_url = some "url";
  };
}

status_updated :
    update_binding_status_from_response marking_platform observed status_before ≡ done status_after
unfolding update_binding_status_from_response
status_updated = refl

update_status-ReadsAs_example :
    ReadsAs marking_platform observed status_after.at_provider
    × SameOperation marking_platform status_before status_after
update_status-ReadsAs_example =
    update_status-ReadsAs marking_platform observed status_before status_after
      marking_platform-ReadsBack status_updated
