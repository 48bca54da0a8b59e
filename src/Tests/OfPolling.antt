-- ===== src/Tests/OfPolling.antt =====
-- A binding whose broker takes its time, at which the polling of it is run.
use provider_osb.Base.{
  ℕ, true, ◌≡◌, ◌≤◌, none, some, [], inl, inr, refl, arith, eq_iff, Bool-cases, if◌then◌else◌, ltb,
}
use provider_osb.Json.{deep_equal}
use provider_osb.Common.Serial.{map_value, context_fields}
use provider_osb.Osb.{
  BindingLastOperationRequest, LastOperationResponse, LastOperationState, succeeded, in_progress,
  answer,
}
use provider_osb.Platform.{World}
use provider_osb.Exec.{Session}
use provider_osb.Util.{marshal_binding_credentials}
use provider_osb.Binding.{ServiceBinding, is_state_in_progress}
use provider_osb.Controller.Binding.Readiness.{Agrees, Reports}
use provider_osb.Controller.Binding.Waiting.{IsComplete}
use provider_osb.Controller.Binding.Polling.{FinishesBy, PublishesAfter, waiting_ends}
use provider_osb.Tests.{test_identity}
use provider_osb.Tests.OfBindings.{test_external}
use provider_osb.Tests.Lasting.{
  lasting_platform, lasting_world, lasting_session, lasting_platform-ReadsBack, fresh_report,
}

-- A broker that works until the fourth call, and has succeeded then.
abbrev state_at : ℕ → LastOperationState
state_at n = if ltb n 4 then in_progress else succeeded

abbrev reply_at : ℕ → BindingLastOperationRequest → LastOperationResponse
reply_at n r = record { state = state_at n; description = none }

abbrev working_world : World lasting_platform (ServiceBinding lasting_platform)
working_world = record lasting_world {
  poll_binding_last_operation = λ n r. answer (some (reply_at n r));
}

abbrev waiting_session : Session (ServiceBinding lasting_platform)
waiting_session = record {
  obj = record (lasting_session "uuid").obj {
    at_provider = record (lasting_session "uuid").obj.at_provider {
      last_operation_state = in_progress;
    };
  };
  calls = [];
}

working_world-FinishesBy : FinishesBy working_world 4
working_world-FinishesBy = record {
  reply = reply_at;
  polled = λ n r. refl;
  works = λ n r. elim (Bool-cases (ltb n 4)) [
    | inl early ↦ inr (rw early refl)
    | inr late ↦ inl (rw late refl)
  ];
  finished = λ n r late. ground arith;
  got = λ n sb. refl;
}

working_world-Reports : Reports lasting_platform working_world fresh_report "uuid"
working_world-Reports n r named = ground (arith, named, eq_iff r.binding_id "uuid")

working_world-Agrees : Agrees working_world "{}" fresh_report (some [])
unfolding map_value marshal_binding_credentials deep_equal context_fields
    provider_osb.Common.Serial.omit_empty
working_world-Agrees = record {
  read = refl;
  written = ("{}", "null", "null", refl, refl, refl);
  credentials = refl;
  fresh = tt;
}

waiting_session-IsComplete : IsComplete test_identity waiting_session.obj
waiting_session-IsComplete = record {
  identity = (ground (arith, eq_iff "kubernetes" ""), ground (arith, eq_iff "user" ""));
  spec = (
    ground (arith, eq_iff waiting_session.obj.for_provider.instance_id ""),
    ground (arith, eq_iff "plan" ""),
    ground (arith, eq_iff "service" ""),
  );
  named = ground (arith, eq_iff "uuid" "");
}

waiting : is_state_in_progress lasting_platform waiting_session.obj ≡ true
unfolding is_state_in_progress
waiting = refl

waiting_ends_example :
    (m : ℕ) × (m ≤ 2)
    × PublishesAfter lasting_platform working_world test_external 4 fresh_report
        (some [])
        waiting_session
        m
waiting_ends_example =
    waiting_ends lasting_platform working_world test_external 4 fresh_report (some [])
      working_world-FinishesBy 2 waiting_session lasting_platform-ReadsBack working_world-Reports
      working_world-Agrees waiting_session-IsComplete waiting (omega arith)
