-- ===== src/Controller/Binding/Creation.antt =====
-- A creation of a binding, and the observations that follow it.
use provider_osb.Base.{
  ◌∙◌, ℕ, Bool, Option, String, true, ◌≡◌, ◌≢◌, inl, inr, refl, some, arith, length, eq_iff,
  Bool-cases, is_empty,
}
use provider_osb.Errors.{done}
use provider_osb.Exec.Rules.{Fallible-cases, Result-cases}
use provider_osb.Json.{GoMap}
use provider_osb.Osb.{BindRequest, BindResponse, GetBindingResponse, answer}
use provider_osb.Platform.{Platform, World}
use provider_osb.Platform.Laws.{IsLawful, ReadsBack}
use provider_osb.Exec.{Session, ok, ◌>>=◌, ◌>>◌}
use provider_osb.Util.{Credentials, handle_async_status}
use provider_osb.Binding.{
  ServiceBinding, ServiceBindingParameters, is_state_in_progress, convert_specs_data,
  get_external_name, set_external_name, handle_async_status_setter,
}
use provider_osb.Binding.Requests.{validate_inputs}
use provider_osb.Binding.Operations.{bind, build_bind_request, handle_bind_request}
use provider_osb.Controller.{ExternalCreation, no_observation}
use provider_osb.Binding.{is_external_name_empty}
use provider_osb.Util.{is_resource_gone}
use provider_osb.Osb.{GetBindingRequest, failure}
use provider_osb.Platform.{Call}
use provider_osb.Errors.{Error}
use provider_osb.Base.{false, ◌∷◌}
use provider_osb.Binding.Requests.{build_get_binding_request}
use provider_osb.Binding.Operations.Observe.{observe_state, observe_external, after_get}
use provider_osb.Controller.Binding.{observation}
use provider_osb.Controller.Binding.Readiness.{IsBound}
use provider_osb.Controller.Binding.Saved.{MetadataSaved}
use provider_osb.Controller.Binding.{External, observe, create}
use provider_osb.Controller.Binding.Readiness.{ready, Agrees, Reports, observe-ready}
use provider_osb.Controller.Binding.Waiting.{async-Marked, IsComplete}

-- The broker binds asynchronously.
pub record BindsLater {P : Platform} (w : World P (ServiceBinding P)) : Type 0 where
  pub resp : BindResponse P.Endpoints P.VolumeMounts
  pub later : resp.async ≡ true
  pub accepted : (n : ℕ) (r : BindRequest) → w.bind n r ≡ answer (some resp)

module _ (P : Platform) (w : World P (ServiceBinding P)) (c : External) where
  open c use {originating_identity as oid}

  IsValid : ServiceBindingParameters → Type 0
  IsValid spec =
      (oid.platform ≢ "")
      × (oid.value ≢ "")
      × (spec.instance_id ≢ "")
      × (spec.plan_id ≢ "")
      × (spec.service_id ≢ "")

  validate_inputs-IsValid :
      (spec : ServiceBindingParameters) → validate_inputs spec oid ≡ done tt → IsValid spec
  unfolding validate_inputs IsValid
  validate_inputs-IsValid spec valid = (
    ground (arith, eq_iff oid.platform ""),
    ground (arith, eq_iff oid.value ""),
    ground (arith, eq_iff spec.instance_id ""),
    ground (arith, eq_iff spec.plan_id ""),
    ground (arith, eq_iff spec.service_id ""),
  )

  -- What a request to bind leaves of the binding: its spec, a name, and nothing else that is new.
  record IsNamed (sb t : ServiceBinding P) : Type 0 where
    pub spec : t.for_provider ≡ sb.for_provider
    pub named : P.get_external_name t.meta ≢ ""
    pub valid : IsValid sb.for_provider

  build_bind_request-IsNamed :
      (disable_async : Bool) (ctx_map params : GoMap) (s : Session (ServiceBinding P))
      (r : BindRequest)
      → IsLawful P
      → ((n : ℕ) → w.new_uuid n ≢ "")
      → (build_bind_request P w oid ctx_map params disable_async s).0 ≡ ok r
      → IsNamed s.obj (build_bind_request P w oid ctx_map params disable_async s).1.obj
  unfolding ◌>>=◌ build_bind_request get_external_name set_external_name
  build_bind_request-IsNamed disable_async ctx_map params s r lawful fresh h =
      elim (Fallible-cases (validate_inputs s.obj.for_provider oid)) [
        | inl (x, refused) ↦ absurd (ground arith)
        | inr (_, valid) ↦ elim (Bool-cases (is_empty (P.get_external_name s.obj.meta))) [
          | inl unnamed ↦
              rw (valid, unnamed, ◌>>◌)
                (record {
                  spec = refl;
                  named = rw (lawful.get-set_external_name) (fresh (length s.calls));
                  valid = validate_inputs-IsValid _ valid;
                })
          | inr given ↦
              rw (valid, given)
                (record {
                  spec = refl;
                  named = ground (arith, eq_iff (P.get_external_name s.obj.meta) "");
                  valid = validate_inputs-IsValid _ valid;
                })
        ]
      ]

  -- What an asynchronous creation leaves: a binding that can be polled for, and waits.
  record IsWaiting (sb t : ServiceBinding P) : Type 0 where
    pub spec : t.for_provider ≡ sb.for_provider
    pub complete : IsComplete oid t
    pub waiting : is_state_in_progress P t ≡ true

  marked-IsWaiting :
      (key : Option String) (sb t : ServiceBinding P)
      → IsNamed sb t
      → IsWaiting sb (handle_async_status (handle_async_status_setter P) key t)
  unfolding IsValid
  marked-IsWaiting key sb t n =
      let (meta, spec, waiting) = async-Marked P key t in
      record {
        spec = spec ∙ n.spec;
        complete = record {
          identity = (n.valid.0, n.valid.1);
          spec = rw (spec, n.spec) (n.valid.2, n.valid.3, n.valid.4);
          named = rw meta n.named;
        };
        waiting = waiting;
      }

  create-IsWaiting :
      (s : Session (ServiceBinding P)) (x : ExternalCreation)
      → IsLawful P
      → ((n : ℕ) → w.new_uuid n ≢ "")
      → BindsLater w
      → (create P w c s).0 ≡ ok x
      → IsWaiting s.obj (create P w c s).1.obj
  unfolding ◌>>=◌ create bind handle_bind_request
  create-IsWaiting s x lawful fresh broker h = elim (Fallible-cases (convert_specs_data P s.obj)) [
    | inl (e, failed) ↦ absurd (ground arith)
    | inr ((ctx_map, params), converted) ↦
        let made = build_bind_request P w oid ctx_map params c.disable_async s in
        elim (Result-cases made.0) [
          | inl (r, built) ↦
              let named =
                build_bind_request-IsNamed c.disable_async ctx_map params s r lawful fresh built in
              let reply = broker.accepted (length made.1.calls) r in
              rw (converted, built, reply, broker.later, ◌>>◌)
                (marked-IsWaiting broker.resp.operation_key s.obj made.1.obj named)
          | inr refused ↦ absurd (ground arith)
        ]
  ]

  -- The request for a binding.
  abbrev pub asked : ServiceBinding P → GetBindingRequest
  asked sb = record {
    instance_id = sb.for_provider.instance_id;
    binding_id = P.get_external_name sb.meta;
  }

  build_get_binding_request-asked :
      (sb : ServiceBinding P) → IsBound sb → build_get_binding_request P sb ≡ done (asked sb)
  unfolding build_get_binding_request get_external_name
  build_get_binding_request-asked sb bound =
      let identified : is_empty sb.for_provider.instance_id ≡ false =
        ground (arith, bound.identified, eq_iff sb.for_provider.instance_id "") in
      let named : is_empty (P.get_external_name sb.meta) ≡ false =
        ground (arith, bound.named, eq_iff (P.get_external_name sb.meta) "") in
      rw (identified, named) refl

  -- An observation of a binding that the broker does not know.
  observe-gone :
      (s : Session (ServiceBinding P)) (e : Error)
      → IsBound s.obj
      → w.get_binding (length s.calls) (asked s.obj) ≡ failure e
      → is_resource_gone e ≡ true
      → observe P w c s
        ≡ (ok no_observation, record s { calls = Call.get_binding (asked s.obj) ∷ s.calls })
  unfolding ◌>>=◌ observe observation observe_state observe_external after_get
      is_external_name_empty
  observe-gone s e bound unknown gone =
      let built = build_get_binding_request-asked s.obj bound in
      let named : is_external_name_empty P s.obj ≡ false =
        ground (arith, bound.named, eq_iff (P.get_external_name s.obj.meta) "") in
      rw (bound.idle, named, built, unknown, gone) refl

  idle_as :
      (sb t : ServiceBinding P)
      → t.at_provider ≡ sb.at_provider
      → is_state_in_progress P sb ≡ false
      → is_state_in_progress P t ≡ false
  unfolding is_state_in_progress
  idle_as sb t same idle = rw same idle

  -- If JSON reads back what it wrote, a new UUID is not empty and is read back as the external name it
  -- was set to, and the broker binds asynchronously, then a creation that succeeds, of a binding that is
  -- not in progress, leaves it in progress in memory only, where only the metadata is stored after the
  -- creation, as the managed reconciler does: an observation of the stored object makes one call, which
  -- asks the broker for the binding and does not poll it, and reports it as missing, to be created
  -- again, if the broker does not know it; an observation after that publishes the credentials of a
  -- broker that then reports the identifier of the creation, with the parameters that the spec is read
  -- as and no time to renew that the clock reaches.
  pub creation-asks_again :
      (later : World P (ServiceBinding P)) (e : Error)
      (report : GetBindingResponse P.Endpoints P.VolumeMounts) (creds : Credentials)
      (s stored : Session (ServiceBinding P)) (x : ExternalCreation)
      → IsLawful P
      → ReadsBack P
      → ((n : ℕ) → w.new_uuid n ≢ "")
      → BindsLater w
      → is_state_in_progress P s.obj ≡ false
      → (create P w c s).0 ≡ ok x
      → MetadataSaved s.obj (create P w c s).1.obj stored.obj
      → w.get_binding (length stored.calls) (asked stored.obj) ≡ failure e
      → is_resource_gone e ≡ true
      → Reports P later report (P.get_external_name (create P w c s).1.obj.meta)
      → Agrees later s.obj.for_provider.parameters report creds
      → (is_state_in_progress P (create P w c s).1.obj ≡ true)
        × (observe P w c stored ≡ (
          ok no_observation,
          record stored { calls = Call.get_binding (asked stored.obj) ∷ stored.calls },
        ))
        × ((observe P later c (observe P w c stored).1).0 ≡ ok (ready creds))
  creation-asks_again later e report creds s stored x lawful reads fresh broker idle h saved unknown
        gone reports agrees =
      let left = create-IsWaiting s x lawful fresh broker h in
      let bound : IsBound stored.obj = record {
        identified = rw (saved.spec, ← left.spec) left.complete.spec.0;
        named = rw saved.meta left.complete.named;
        idle = idle_as s.obj stored.obj saved.status idle;
      } in
      let missing = observe-gone stored e bound unknown gone in
      let asked_for : Session (ServiceBinding P) = record stored {
        calls = Call.get_binding (asked stored.obj) ∷ stored.calls;
      } in
      (
        left.waiting,
        missing,
        rw missing (
            observe-ready P later c reads report creds asked_for bound (rw saved.meta reports)
              (rw saved.spec agrees)),
      )
