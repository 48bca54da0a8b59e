-- ===== src/Binding/Operations/Observe/Published.antt =====
-- Which credentials the observation of a binding publishes.
use provider_osb.Base.{
  Bool, Bool-cases, String, ◌≡◌, ◌⊎◌, inl, inr, refl, true, none, some, arith, length,
}
use provider_osb.Errors.{BindingError, UtilError, Fallible, done, fail}
use provider_osb.Exec.Rules.{Fallible-cases}
use provider_osb.Json.{GoMap, lookup_field}
use provider_osb.Json.StringMap.{lookup}
use provider_osb.Common.{Action}
use provider_osb.Osb.{
  OriginatingIdentity, GetBindingRequest, GetBindingResponse, Reply, answer, failure,
}
use provider_osb.Platform.{Platform, World}
use provider_osb.Exec.{Session, ok, ◌>>=◌}
use provider_osb.Exec.Ensures.{
  Ensures, Ensures-pure, Ensures-raise, Ensures-crash, Ensures-if, Ensures-bind, Ensures-then,
  Ensures-lift,
}
use provider_osb.Util.{Credentials, marshal_binding_credentials, marshal_map_values, marshal_fields}
use provider_osb.Util.Marshalling.{MarshalsTo, marshal_fields-MarshalsTo}
use provider_osb.Binding.{
  ServiceBinding, wrap_failure, get_external_name, is_external_name_empty, is_state_in_progress,
}
use provider_osb.Binding.Requests.{build_get_binding_request}
use provider_osb.Binding.Renewal.{BindingAction}
use provider_osb.Binding.Operations.Observe.{
  after_renewal, observe_response, after_get, observe_external, observe_operation, observe_state,
}

module _ (P : Platform) (w : World P (ServiceBinding P)) where
  abbrev Got : Type 0
  Got = GetBindingResponse P.Endpoints P.VolumeMounts

  -- A nil map for nil, and else exactly the keys of the response, each with its value as JSON.
  abbrev pub AreCredentials : GoMap → Credentials → Type 0
  AreCredentials none none = Unit
  AreCredentials (some m) (some entries) =
      (k : String) → MarshalsTo P (lookup_field k m) (lookup k entries)
  AreCredentials _ _ = ⊥

  marshalled-AreCredentials :
      (m : GoMap) (creds : Credentials)
      → marshal_binding_credentials P m ≡ done creds
      → AreCredentials m creds
  unfolding marshal_binding_credentials marshal_map_values
  marshalled-AreCredentials none none h = tt
  marshalled-AreCredentials none (some entries) h = absurd (ground arith)
  marshalled-AreCredentials (some m) none h =
      elim (Fallible-cases (marshal_fields P UtilError.marshal_map_value m)) [
        | inl (x, failed) ↦ absurd (ground arith)
        | inr (rest, rest_done) ↦ absurd (ground arith)
      ]
  marshalled-AreCredentials (some m) (some entries) h = λ k.
      elim (Fallible-cases (marshal_fields P UtilError.marshal_map_value m)) [
        | inl (x, failed) ↦ absurd (ground arith)
        | inr (rest, rest_done) ↦
            ground
              (arith, marshal_fields-MarshalsTo P UtilError.marshal_map_value m rest k rest_done)
      ]

  -- The broker's answer, at this point of the calls, to a request for the binding with the identifier
  -- of the object, has these credentials.
  pub record IsAnswered (s : Session (ServiceBinding P)) (creds : Credentials) : Type 0 where
    pub request : GetBindingRequest
    pub response : Got
    pub of_instance : request.instance_id ≡ s.obj.for_provider.instance_id
    pub of_binding : request.binding_id ≡ P.get_external_name s.obj.meta
    pub answered : w.get_binding (length s.calls) request ≡ answer (some response)
    pub credentials : AreCredentials response.credentials creds

  -- Without credentials while an operation is in progress, or if something is to be done; else with
  -- those of the broker's answer.
  abbrev pub IsObserved : Session (ServiceBinding P) → Action × Credentials → Type 0
  IsObserved s (action, creds) =
      ((creds ≡ none) × ((is_state_in_progress P s.obj ≡ true) ⊎ (action ≡ Action.need_to_create)))
      ⊎ IsAnswered s creds

  abbrev IsMarshalled : Got → Action × Credentials → Type 0
  IsMarshalled resp observed = marshal_binding_credentials P resp.credentials ≡ done observed.1

  after_renewal-same :
      (resp : Got) (creds : Credentials) (a : BindingAction)
      → marshal_binding_credentials P resp.credentials ≡ done creds
      → Ensures (IsMarshalled resp) (after_renewal P w creds a)
  unfolding ◌>>=◌ after_renewal
  after_renewal-same resp creds a h = record { at = λ s r e. ground arith }

  unwrapped :
      {A : Type 0} (e : BindingError) (m : Fallible A) (a : A)
      → wrap_failure e m ≡ done a
      → m ≡ done a
  unwrapped e (done x) a h = h
  unwrapped e (fail x) a h = absurd (ground (arith, h))

  observe_response-IsMarshalled :
      (rotate : Bool) (resp : Got) → Ensures (IsMarshalled resp) (observe_response P w rotate resp)
  unfolding observe_response
  observe_response-IsMarshalled rotate resp = Ensures-then _ _ λ _.
      Ensures-bind _ _ (Ensures-lift _) λ creds marshalled.
        Ensures-then _ _ λ a. after_renewal-same resp creds a (unwrapped _ _ _ marshalled)

  build_get_binding_request-names :
      (sb : ServiceBinding P) (q : GetBindingRequest)
      → build_get_binding_request P sb ≡ done q
      → (q.instance_id ≡ sb.for_provider.instance_id) × (q.binding_id ≡ P.get_external_name sb.meta)
  unfolding build_get_binding_request get_external_name
  build_get_binding_request-names sb q built = (ground arith, ground arith)

  after_get-IsObserved :
      (rotate : Bool) (s : Session (ServiceBinding P)) (q : GetBindingRequest) (reply : Reply Got)
      → build_get_binding_request P s.obj ≡ done q
      → w.get_binding (length s.calls) q ≡ reply
      → Ensures (IsObserved s) (after_get P w rotate reply)
  unfolding after_get
  after_get-IsObserved rotate s q (failure e) built h =
      Ensures-if _ _ _ (Ensures-pure _ (inl (refl, inr refl))) (Ensures-raise _)
  after_get-IsObserved rotate s q (answer none) built h = Ensures-crash
  after_get-IsObserved rotate s q (answer (some resp)) built h = record {
    at = λ t observed e.
        let (of_instance, of_binding) = build_get_binding_request-names s.obj q built in
        inr (record {
          request = q;
          response = resp;
          of_instance = of_instance;
          of_binding = of_binding;
          answered = h;
          credentials =
              marshalled-AreCredentials resp.credentials observed.1
                ((observe_response-IsMarshalled rotate resp).at t observed e);
        });
  }

  observe_external-IsObserved :
      (rotate : Bool) (s : Session (ServiceBinding P)) (observed : Action × Credentials)
      → (observe_external P w rotate s).0 ≡ ok observed
      → IsObserved s observed
  unfolding ◌>>=◌ observe_external
  observe_external-IsObserved rotate s observed h =
      elim (Fallible-cases (build_get_binding_request P s.obj)) [
        | inl (x, refused) ↦ let wrong = rw refused at h in absurd (ground arith)
        | inr (q, built) ↦
            let went = rw built at h in
            (after_get-IsObserved rotate s q _ built refl).at _ observed went
      ]

  observe_operation-empty :
      (oid : OriginatingIdentity)
      → Ensures (λ observed. observed.1 ≡ none) (observe_operation P w oid)
  unfolding observe_operation
  observe_operation-empty oid = Ensures-then _ _ λ a. Ensures-pure _ refl

  pub observe_state-IsObserved :
      (rotate : Bool) (oid : OriginatingIdentity) (s : Session (ServiceBinding P))
      (observed : Action × Credentials)
      → (observe_state P w rotate oid s).0 ≡ ok observed
      → IsObserved s observed
  unfolding ◌>>=◌ observe_state
  observe_state-IsObserved rotate oid s observed h =
      elim (Bool-cases (is_state_in_progress P s.obj)) [
        | inl waiting ↦
            let went = rw waiting at h in
            inl ((observe_operation-empty oid).at s observed went, inl waiting)
        | inr idle ↦ elim (Bool-cases (is_external_name_empty P s.obj)) [
          | inl unnamed ↦
              let went = rw (idle, unnamed) at h in inl (ground arith, inr (ground arith))
          | inr named ↦
              let went = rw (idle, named) at h in observe_external-IsObserved rotate s observed went
        ]
      ]
