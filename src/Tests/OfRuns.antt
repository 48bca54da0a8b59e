-- ===== src/Tests/OfRuns.antt =====
-- Sequences of the controllers' methods at which their properties are run.
use Prim.Native.Nat.{◌*◌}
use provider_osb.Base.{
  ℕ, false, ◌+◌, ◌≤◌, ◌≡◌, none, some, [], ◌∷◌, refl, arith, eq_iff, length, ltb, if◌then◌else◌,
}
use provider_osb.Osb.{
  answer, failed, in_progress, succeeded, LastOperationRequest, LastOperationResponse,
}
use provider_osb.Platform.{World, available}
use provider_osb.Instance.{ServiceInstance}
use provider_osb.Instance.Lifecycle.{Runs, view}
use provider_osb.Instance.Operations.Polling.{Echoes, after_last_op}
use provider_osb.Instance.Operations.Refines.{EchoesStatus}
use provider_osb.Controller.{no_observation}
use provider_osb.Exec.{ok, Session, ◌>>=◌}
use provider_osb.Controller.Instance.{observe, create}
use provider_osb.Controller.Instance.Convergence.{up_to_date}
use provider_osb.Controller.Instance.Availability.{IsOperating, observe-available}
use provider_osb.Controller.Instance.Creation.{ProvisionsLater, create-observed}
use provider_osb.Instance.Operations.{provision}
use provider_osb.Instance.Requests.{build_provision_request}
use provider_osb.Common.Serial.{to_parameters, to_map}
use provider_osb.Controller.Instance.StickyKey as InstanceRuns
use provider_osb.Controller.Instance.Polling.{
  FinishesBy, IsDeleting, IsFilled, observations, observations_end,
}
use provider_osb.Controller.Instance.Refines.{activities, run_all-Runs}
use provider_osb.Controller.Binding.Runs as BindingRuns
use provider_osb.Controller.Binding.Bounds.{run_binding_le}
use provider_osb.Tests.{test_platform, test_platform-IsLawful}
use provider_osb.Binding.Operations.Naming.{KeepsName, name_of}
use provider_osb.Controller.Binding.Naming.{Lives, run_all-Lives}
use provider_osb.Tests.OfBindings.{bound, binding_world, test_external as binding_external}
use provider_osb.Tests.OfInstances.{
  deleted_session, settled_session, instance_world, test_external as instance_external,
}

run_binding_le_example :
    length
      (BindingRuns.run_all test_platform binding_world binding_external
        (BindingRuns.updating ∷ BindingRuns.deleting ∷ [])
        bound).calls
    ≤ 0 + 3 * 2
run_binding_le_example =
    run_binding_le test_platform binding_world binding_external
      (BindingRuns.updating ∷ BindingRuns.deleting ∷ []) bound

-- A broker that works until the fourth call, and has succeeded then.
abbrev slow_reply : ℕ → LastOperationRequest → LastOperationResponse
slow_reply n r = record { state = if ltb n 4 then in_progress else succeeded; description = none }

abbrev slow_world : World test_platform (ServiceInstance test_platform)
slow_world = record instance_world { poll_last_operation = λ n r. answer (some (slow_reply n r)) }

slow_world-FinishesBy : FinishesBy slow_world 4
slow_world-FinishesBy = record {
  reply = slow_reply;
  polled = λ n r. refl;
  finished = λ n r late. ground arith;
}

slow_world-Echoes : Echoes test_platform slow_world
slow_world-Echoes = record { got = λ n si. refl; saved = λ n si. refl }

deleted_session-IsDeleting : IsDeleting deleted_session.obj
deleted_session-IsDeleting = record {
  deleted = refl;
  identified = ground (arith, eq_iff "id" "");
  named = ground (arith, eq_iff "key" "");
  unbound = refl;
}

external-IsFilled : IsFilled test_platform slow_world instance_external
external-IsFilled = (ground (arith, eq_iff "kubernetes" ""), ground (arith, eq_iff "user" ""))

observations_end_example :
    (observe test_platform slow_world instance_external (
      InstanceRuns.run_all test_platform slow_world instance_external
        (observations 2)
        deleted_session)).0
    ≡ ok no_observation
observations_end_example =
    observations_end test_platform slow_world instance_external 4 slow_world-FinishesBy 2
      deleted_session slow_world-Echoes external-IsFilled deleted_session-IsDeleting (omega arith)

instance_world-EchoesStatus : EchoesStatus instance_world
instance_world-EchoesStatus = record { got = λ n si. refl; saved = λ n si. refl }

run_all-Runs_example :
    Runs
      (activities (InstanceRuns.deleting ∷ InstanceRuns.observing ∷ []))
      (view deleted_session.obj)
      (view
        (InstanceRuns.run_all test_platform instance_world instance_external
          (InstanceRuns.deleting ∷ InstanceRuns.observing ∷ [])
          deleted_session).obj)
run_all-Runs_example =
    run_all-Runs test_platform instance_world instance_external instance_world-EchoesStatus
      (InstanceRuns.deleting ∷ InstanceRuns.observing ∷ []) deleted_session

-- A broker whose operation has failed.
abbrev failing_world : World test_platform (ServiceInstance test_platform)
failing_world = record instance_world {
  poll_last_operation = λ n q. answer (some (record { state = failed; description = none }));
}

abbrev awaited_session : Session (ServiceInstance test_platform)
awaited_session = record deleted_session {
  obj = record deleted_session.obj { meta = record deleted_session.obj.meta { deleted = false } };
}

failing_world-Echoes : Echoes test_platform failing_world
failing_world-Echoes = record { got = λ n si. refl; saved = λ n si. refl }

awaited_session-IsOperating : IsOperating awaited_session.obj
awaited_session-IsOperating = record {
  present = refl;
  identified = ground (arith, eq_iff "id" "");
  named = ground (arith, eq_iff "key" "");
}

observe-available_example :
    let (result, t) = observe test_platform failing_world instance_external awaited_session in
    (result ≡ ok up_to_date)
    × (t.obj.at_provider.last_operation_state ≡ failed)
    × (t.obj.conditions
        ≡ available
          ∷ (after_last_op test_platform failing_world
              (record { state = failed; description = none })
              awaited_session.obj).conditions)
observe-available_example =
    observe-available test_platform failing_world instance_external
      (record { state = failed; description = none }) awaited_session failing_world-Echoes
      (ground (arith, eq_iff "kubernetes" ""), ground (arith, eq_iff "user" ""))
      awaited_session-IsOperating (λ q. refl)

instance_created :
    (create test_platform failing_world instance_external settled_session).0
    ≡ ok (record { connection_details = none; async = false })
unfolding ◌>>=◌ create provision build_provision_request to_parameters to_map
instance_created = refl

failing_world-ProvisionsLater : ProvisionsLater failing_world
failing_world-ProvisionsLater = record {
  key = "key";
  named = ground (arith, eq_iff "key" "");
  dashboard_url = some "url";
  accepted = λ n r. refl;
  reply = record { state = failed; description = none };
  polled = λ n q. refl;
}

create-observed_example :
    let (result, t) =
      observe test_platform failing_world instance_external
        (create test_platform failing_world instance_external settled_session).1 in
    (result ≡ ok up_to_date) × (t.obj.at_provider.last_operation_state ≡ failed)
unfolding failing_world-ProvisionsLater
create-observed_example =
    create-observed test_platform failing_world instance_external settled_session
      (record { connection_details = none; async = false }) failing_world-ProvisionsLater
      failing_world-Echoes
      (ground (arith, eq_iff "kubernetes" ""), ground (arith, eq_iff "user" "")) refl
      instance_created

binding_world-KeepsName : KeepsName binding_world
binding_world-KeepsName = record {
  added = λ m f. refl;
  removed = λ m f. refl;
  got = λ n sb. refl;
  updated = λ n sb. refl;
}

run_all-Lives_example :
    Lives binding_world.new_uuid
      (BindingRuns.creating ∷ BindingRuns.updating ∷ BindingRuns.observing ∷ [])
      "old"
      (name_of
        (BindingRuns.run_all test_platform binding_world binding_external
          (BindingRuns.creating ∷ BindingRuns.updating ∷ BindingRuns.observing ∷ [])
          bound).obj)
run_all-Lives_example =
    run_all-Lives test_platform binding_world binding_external binding_world-KeepsName
      test_platform-IsLawful
      (BindingRuns.creating ∷ BindingRuns.updating ∷ BindingRuns.observing ∷ []) bound
