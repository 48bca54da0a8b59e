-- ===== src/Controller/Binding/Readiness.antt =====
-- The observation of a binding that the broker reports as the spec says.
use provider_osb.Base.{
  Option-cases, ℕ, ◌∷◌, ltb, is_empty, Bool-cases, String, Bool, Option, true, false, ◌≡◌, ◌≢◌, ◌⊎◌,
  ◌≤◌, inl, inr, refl, none, some, arith, length, eq_iff,
}
use provider_osb.Errors.{done}
use provider_osb.Exec.Rules.{Fallible-cases}
use provider_osb.Common.Serial.{map_value}
use provider_osb.Osb.{BindingMetadata, GetBindingRequest, GetBindingResponse, answer}
use provider_osb.Platform.{Platform, World, Call}
use provider_osb.Platform.Laws.{ReadsBack}
use provider_osb.Exec.{Session, ok, ◌>>=◌}
use provider_osb.Util.{Credentials, marshal_binding_credentials, parse_iso8601_time}
use provider_osb.Binding.{
  ServiceBinding, update_binding_status_from_response, status_parameters_differ,
  is_state_in_progress, is_external_name_empty,
}
use provider_osb.Binding.StatusLaws.{update_status-Written}
use provider_osb.Binding.Requests.{build_get_binding_request}
use provider_osb.Binding.Renewal.{BindingAction, handle_renewal_bindings}
use provider_osb.Binding.Operations.Observe.{
  after_renewal, observe_response, after_get, observe_external, observe_state,
}
use provider_osb.Common.{nothing_to_do}
use provider_osb.Controller.{ExternalObservation}
use provider_osb.Controller.Binding.{External, observe, observation}

-- The resource exists and is as the spec says, with these connection details.
abbrev pub ready : Credentials → ExternalObservation
ready creds = record {
  resource_exists = true;
  resource_up_to_date = true;
  connection_details = creds;
}

-- The clock never reaches the time to renew, or there is none.
abbrev pub IsFresh : {P : Platform} → World P (ServiceBinding P) → Option BindingMetadata → Type 0
IsFresh w none = Unit
IsFresh {P} w (some m) =
    (m.renew_before ≡ "")
    ⊎ ((t : ℕ) × (P.parse_time m.renew_before ≡ done t) × ((n : ℕ) → w.now n ≤ t))

-- A report of the broker that agrees with the spec and can be written as JSON.
pub record Agrees {P : Platform} (w : World P (ServiceBinding P)) (parameters : String)
    (report : GetBindingResponse P.Endpoints P.VolumeMounts) (creds : Credentials) : Type 0 where
  pub read : P.unmarshal_map parameters ≡ done report.parameters
  pub written :
      (p : String) × (e : String) × (v : String) × (P.marshal_value (map_value report.parameters)
        ≡ done p)
      × (P.marshal_endpoints report.endpoints ≡ done e)
      × (P.marshal_volume_mounts report.volume_mounts ≡ done v)
  pub credentials : marshal_binding_credentials P report.credentials ≡ done creds
  pub fresh : IsFresh w report.metadata

module _ (P : Platform) (w : World P (ServiceBinding P)) where
  abbrev Got : Type 0
  Got = GetBindingResponse P.Endpoints P.VolumeMounts

  -- A fresh binding is not renewed, and stays as it is.
  abbrev Rests : Got → Bool → Session (ServiceBinding P) → Type 0
  Rests report rotate s =
      (a : BindingAction) × (t : Session (ServiceBinding P)) × (handle_renewal_bindings P w
          (some report) rotate s
        ≡ (ok a, t))
      × (t.obj ≡ s.obj)
      × ((a ≡ BindingAction.renewal_data) ⊎ (a ≡ BindingAction.nothing_to_do))

  handle_renewal_bindings-fresh :
      (report : Got) (rotate : Bool) (s : Session (ServiceBinding P))
      → IsFresh w report.metadata
      → Rests report rotate s
  unfolding ◌>>=◌ handle_renewal_bindings parse_iso8601_time
  handle_renewal_bindings-fresh report rotate s fresh = elim (Option-cases report.metadata) [
    | inl absent ↦ (BindingAction.nothing_to_do, s, rw (absent, ◌>>=◌) refl, refl, inr refl)
    | inr (m, present) ↦ fresh_metadata m present (rw present at fresh)
  ]
    where
      fresh_metadata :
          (m : BindingMetadata)
          → report.metadata ≡ some m
          → IsFresh w (some m)
          → Rests report rotate s
      fresh_metadata m present (inl never) =
          (BindingAction.renewal_data, s, rw (present, never) refl, refl, inl refl)
      fresh_metadata m present (inr (t, read, later)) =
          elim (Bool-cases (is_empty m.renew_before)) [
            | inl never ↦ (BindingAction.renewal_data, s, rw (present, never) refl, refl, inl refl)
            | inr given ↦
                let early : ltb t (w.now (length s.calls)) ≡ false =
                  ground (arith, later (length s.calls)) in
                (
                  BindingAction.nothing_to_do,
                  record s { calls = Call.now ∷ s.calls },
                  rw (present, given, read, parse_iso8601_time, early) refl,
                  refl,
                  inr refl,
                )
          ]

  status_parameters-agree :
      (report : Got) (sb t : ServiceBinding P)
      → ReadsBack P
      → P.unmarshal_map sb.for_provider.parameters ≡ done report.parameters
      → update_binding_status_from_response P report sb ≡ done t
      → status_parameters_differ P t ≡ done false
  unfolding status_parameters_differ
  status_parameters-agree report sb t reads spec updated =
      let written = update_status-Written P report sb t updated in
      let (filled, (m, read, equal)) =
        reads.map_read report.parameters t.at_provider.parameters written.parameters in
      let some_text : is_empty t.at_provider.parameters ≡ false =
        ground (arith, eq_iff t.at_provider.parameters "") in
      rw (some_text, read, written.same.spec, spec, equal) refl

  after_renewal-ready :
      (report : Got) (creds : Credentials) (a : BindingAction) (t : Session (ServiceBinding P))
      → (a ≡ BindingAction.renewal_data) ⊎ (a ≡ BindingAction.nothing_to_do)
      → status_parameters_differ P t.obj ≡ done false
      → after_renewal P w creds a t ≡ (ok (nothing_to_do, creds), t)
  unfolding ◌>>=◌ after_renewal
  after_renewal-ready report creds _ t (inl e) like = rw e refl
  after_renewal-ready report creds _ t (inr e) like = rw (e, like) refl

  updated_status :
      (report : Got) (creds : Credentials) (sb : ServiceBinding P)
      → Agrees w sb.for_provider.parameters report creds
      → (t : ServiceBinding P) × (update_binding_status_from_response P report sb ≡ done t)
  unfolding update_binding_status_from_response
  updated_status report creds sb agrees =
      let (p, e, v, wrote_p, wrote_e, wrote_v) = agrees.written in
      elim (Fallible-cases (update_binding_status_from_response P report sb)) [
        | inl (x, failed) ↦
            let impossible = rw (wrote_p, wrote_e, wrote_v) at failed in absurd (ground arith)
        | inr found ↦ found
      ]

  -- The broker reports the binding of this identifier so, at any time.
  abbrev pub Reports : Got → String → Type 0
  Reports report id =
      (n : ℕ) (r : GetBindingRequest) → r.binding_id ≡ id → w.get_binding n r ≡ answer (some report)

  module _ (reads : ReadsBack P) (report : Got) (creds : Credentials) (rotate : Bool) where
    observe_response-ready :
        (s : Session (ServiceBinding P))
        → Agrees w s.obj.for_provider.parameters report creds
        → (observe_response P w rotate report s).0 ≡ ok (nothing_to_do, creds)
    unfolding ◌>>=◌ observe_response
    observe_response-ready s agrees =
        let (t, updated) = updated_status report creds s.obj agrees in
        let like = status_parameters-agree report s.obj t reads agrees.read updated in
        let (a, after, decided, same, rests) =
          handle_renewal_bindings-fresh report rotate (record s { obj = t }) agrees.fresh in
        let done_ = after_renewal-ready report creds a after rests (rw same like) in
        rw (updated, agrees.credentials, decided, done_) refl

    get_request :
        (sb : ServiceBinding P)
        → sb.for_provider.instance_id ≢ ""
        → P.get_external_name sb.meta ≢ ""
        → (r : GetBindingRequest) × (build_get_binding_request P sb ≡ done r)
          × (r.binding_id ≡ P.get_external_name sb.meta)
    unfolding build_get_binding_request
    get_request sb identified named = elim (Fallible-cases (build_get_binding_request P sb)) [
      | inl (x, refused) ↦ absurd (
          ground
            (arith, eq_iff sb.for_provider.instance_id "", eq_iff (P.get_external_name sb.meta) ""))
      | inr (r, built) ↦ (r, built, ground arith)
    ]

    observe_external-ready :
        (s : Session (ServiceBinding P))
        → s.obj.for_provider.instance_id ≢ ""
        → P.get_external_name s.obj.meta ≢ ""
        → Reports report (P.get_external_name s.obj.meta)
        → Agrees w s.obj.for_provider.parameters report creds
        → (observe_external P w rotate s).0 ≡ ok (nothing_to_do, creds)
    unfolding ◌>>=◌ observe_external after_get
    observe_external-ready s identified named reports agrees =
        let (r, built, for_name) = get_request s.obj identified named in
        let reply = reports (length s.calls) r for_name in
        let seen =
          observe_response-ready (record s { calls = Call.get_binding r ∷ s.calls }) agrees in
        rw (built, reply, seen) refl

-- A binding with an identifier that waits for no operation.
pub record IsBound {P : Platform} (sb : ServiceBinding P) : Type 0 where
  pub identified : sb.for_provider.instance_id ≢ ""
  pub named : P.get_external_name sb.meta ≢ ""
  pub idle : is_state_in_progress P sb ≡ false

pub observe-ready :
    (P : Platform) (w : World P (ServiceBinding P)) (c : External) (reads : ReadsBack P)
    (report : GetBindingResponse P.Endpoints P.VolumeMounts) (creds : Credentials)
    (s : Session (ServiceBinding P))
    → IsBound s.obj
    → Reports P w report (P.get_external_name s.obj.meta)
    → Agrees w s.obj.for_provider.parameters report creds
    → (observe P w c s).0 ≡ ok (ready creds)
unfolding ◌>>=◌ observe observation observe_state is_external_name_empty
observe-ready P w c reads report creds s bound reports agrees =
    let seen =
      observe_external-ready P w reads report creds c.rotate_binding s bound.identified bound.named
        reports agrees in
    let named : is_external_name_empty P s.obj ≡ false =
      ground (arith, bound.named, eq_iff (P.get_external_name s.obj.meta) "") in
    rw (bound.idle, named, seen) refl
