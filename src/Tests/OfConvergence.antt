-- ===== src/Tests/OfConvergence.antt =====
-- Creations and rotations at which the properties of what follows them are run.
use provider_osb.Base.{true, ◌≡◌, refl, none, some, [], arith, eq_iff}
use provider_osb.Json.{deep_equal}
use provider_osb.Common.Serial.{context_fields}
use provider_osb.Osb.{answer}
use provider_osb.Platform.{World}
use provider_osb.Exec.{ok, Session, ◌>>=◌}
use provider_osb.Binding.{ServiceBinding, convert_specs_data, is_state_in_progress}
use provider_osb.Binding.Requests.{build_rotate_binding_request}
use provider_osb.Binding.Operations.{
  bind, build_bind_request, handle_bind_request, trigger_rotation,
}
use provider_osb.Controller.Binding.{observe, create, update}
use provider_osb.Controller.Binding.Readiness.{ready}
use provider_osb.Controller.Binding.Convergence.{rotation-settles}
use provider_osb.Controller.Binding.Saved.{MetadataSaved}
use provider_osb.Errors.{http}
use provider_osb.Osb.{failure}
use provider_osb.Platform.{Call}
use provider_osb.Base.{false, ◌∷◌, ◌==◌, if◌then◌else◌}
use provider_osb.Controller.{no_observation}
use provider_osb.Util.{is_resource_gone}
use provider_osb.Controller.Binding.Creation.{asked, creation-asks_again}
use provider_osb.Controller.Binding.Unsaved.{OnlyAsks, update-OnlyAsks}
use provider_osb.Tests.OfBindings.{test_external}
use provider_osb.Tests.Lasting.{
  lasting_platform, lasting_platform-ReadsBack, lasting_platform-IsLawful, fresh_report, at_once,
  later, lasting_world, lasting_session, lasting_world-Reports, lasting_world-Agrees,
}

rotated :
    (update lasting_platform lasting_world test_external (lasting_session "old")).0
    ≡ ok (record { connection_details = some [] })
unfolding ◌>>=◌ update trigger_rotation build_rotate_binding_request
rotated = refl

rotation-settles_example :
    (observe lasting_platform lasting_world test_external
      (update lasting_platform lasting_world test_external (lasting_session "old")).1).0
    ≡ ok (ready (some []))
unfolding is_state_in_progress
rotation-settles_example =
    rotation-settles lasting_platform lasting_world test_external fresh_report (some [])
      (lasting_session "old") (record { connection_details = some [] }) lasting_platform-IsLawful
      lasting_platform-ReadsBack (record { resp = at_once; at_once = refl; rotated = λ n r. refl })
      lasting_world-Reports lasting_world-Agrees refl rotated

-- A broker that rotates later, and knows the old binding.
abbrev slow_world : World lasting_platform (ServiceBinding lasting_platform)
slow_world = record lasting_world {
  rotate_binding = λ n r. answer (some later);
  get_binding =
      λ n r. if r.binding_id == "old" then answer (some fresh_report) else failure (http 404);
}

-- What is stored after the rotation: the status of the object in memory.
abbrev reverted : Session (ServiceBinding lasting_platform)
reverted = record {
  obj = record (lasting_session "old").obj {
    at_provider =
        (update lasting_platform slow_world test_external
          (lasting_session "old")).1.obj.at_provider;
  };
  calls = [];
}

-- The same broker while it has not bound yet.
abbrev binding_later : World lasting_platform (ServiceBinding lasting_platform)
binding_later = record lasting_world { get_binding = λ n r. failure (http 404) }

created :
    (create lasting_platform binding_later test_external (lasting_session "")).0
    ≡ ok (record { connection_details = none; async = true })
unfolding ◌>>=◌ create bind convert_specs_data build_bind_request handle_bind_request deep_equal
    context_fields provider_osb.Common.Serial.omit_empty
created = refl

-- What is stored after the creation: the metadata of the object in memory.
abbrev forgotten : Session (ServiceBinding lasting_platform)
forgotten = record {
  obj = record (lasting_session "").obj {
    meta = (create lasting_platform binding_later test_external (lasting_session "")).1.obj.meta;
  };
  calls = [];
}

is_forgotten :
    MetadataSaved
      (lasting_session "").obj
      (create lasting_platform binding_later test_external (lasting_session "")).1.obj
      forgotten.obj
is_forgotten = record { meta = refl; spec = refl; status = refl }

lasting_session-idle : is_state_in_progress lasting_platform (lasting_session "").obj ≡ false
unfolding is_state_in_progress
lasting_session-idle = refl

is_gone : is_resource_gone (http 404) ≡ true
unfolding is_resource_gone
is_gone = refl

creation-asks_again_example :
    (is_state_in_progress lasting_platform
        (create lasting_platform binding_later test_external (lasting_session "")).1.obj
      ≡ true)
    × (observe lasting_platform binding_later test_external forgotten ≡ (
      ok no_observation,
      record forgotten {
        calls =
            Call.get_binding (asked lasting_platform binding_later test_external forgotten.obj)
            ∷ [];
      },
    ))
    × ((observe lasting_platform lasting_world test_external
          (observe lasting_platform binding_later test_external forgotten).1).0
        ≡ ok (ready (some [])))
unfolding ◌>>=◌ create bind convert_specs_data build_bind_request handle_bind_request deep_equal
    context_fields provider_osb.Common.Serial.omit_empty
creation-asks_again_example =
    creation-asks_again lasting_platform binding_later test_external lasting_world (http 404)
      fresh_report (some []) (lasting_session "") forgotten
      (record { connection_details = none; async = true }) lasting_platform-IsLawful
      lasting_platform-ReadsBack (λ n. ground (arith, eq_iff "uuid" ""))
      (record { resp = later; later = refl; accepted = λ n r. refl }) lasting_session-idle created
      is_forgotten refl is_gone lasting_world-Reports lasting_world-Agrees

update-OnlyAsks_example :
    OnlyAsks lasting_platform lasting_world test_external
      (lasting_session "old")
      (update lasting_platform lasting_world test_external (lasting_session "old")).1.calls
update-OnlyAsks_example =
    update-OnlyAsks lasting_platform lasting_world test_external (lasting_session "old")
