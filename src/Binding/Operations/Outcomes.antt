-- ===== src/Binding/Operations/Outcomes.antt =====
-- How a call of `Bind` ends.
use provider_osb.Base.{Bool, true, false, ◌≡◌, ◌≢◌, inl, inr, Option, none, arith}
use provider_osb.Errors.{Error, BindingError, wrap, of_binding, fail}
use provider_osb.Json.{GoMap}
use provider_osb.Osb.{OriginatingIdentity, BindRequest, BindResponse, in_progress}
use provider_osb.Platform.{Platform, World}
use provider_osb.Exec.{Session, Result, ok, err, panic, ◌>>=◌}
use provider_osb.Exec.Rules.{Fallible-cases, Result-cases}
use provider_osb.Binding.{ServiceBinding, convert_specs_data}
use provider_osb.Binding.Operations.{bind, build_bind_request, handle_bind_request}

module _ (P : Platform) (w : World P (ServiceBinding P)) where
  -- A call that succeeds is asynchronous, has no response and is marked as in progress, or it is
  -- synchronous and has one. It never panics.
  abbrev pub BindOutcome :
      Result (Option (BindResponse P.Endpoints P.VolumeMounts) × Bool) × Session (ServiceBinding P)
      → Type 0
  BindOutcome (ok (resp, true), t) =
      (resp ≡ none) × (t.obj.at_provider.last_operation_state ≡ in_progress)
  BindOutcome (ok (resp, false), t) = resp ≢ none
  BindOutcome (err e, t) = Unit
  BindOutcome (panic, t) = ⊥

  build_bind_request-ne-panic :
      (oid : OriginatingIdentity) (ctx_map params : GoMap) (disable_async : Bool)
      (s : Session (ServiceBinding P))
      → (build_bind_request P w oid ctx_map params disable_async s).0 ≢ panic
  unfolding ◌>>=◌ build_bind_request
  build_bind_request-ne-panic oid ctx_map params disable_async s = ground arith

  handle_bind_request-BindOutcome :
      (r : BindRequest) (s : Session (ServiceBinding P)) → BindOutcome (handle_bind_request P w r s)
  unfolding ◌>>=◌ handle_bind_request
  handle_bind_request-BindOutcome r s = ground arith

  -- A call of `Bind` that succeeds asynchronously has no response and leaves the state in
  -- progress, one that succeeds synchronously has a response, and no call panics.
  pub bind-BindOutcome :
      (oid : OriginatingIdentity) (disable_async : Bool) (s : Session (ServiceBinding P))
      → BindOutcome (bind P w oid disable_async s)
  unfolding ◌>>=◌ bind
  bind-BindOutcome oid disable_async s = elim (Fallible-cases (convert_specs_data P s.obj)) [
    | inl (e, failed) ↦ ground arith
    | inr (specs, converted) ↦
        let t = build_bind_request P w oid specs.0 specs.1 disable_async s in
        elim (Result-cases t.0) [
          | inl (r, made) ↦ ground (arith, handle_bind_request-BindOutcome r t.1)
          | inr refused ↦
              ground (arith, build_bind_request-ne-panic oid specs.0 specs.1 disable_async s)
        ]
  ]

  -- A binding whose parameters are left empty cannot be bound where the JSON reader refuses the
  -- empty text: every call fails before a request, and changes nothing.
  pub bind_without_parameters :
      (oid : OriginatingIdentity) (disable_async : Bool) (s : Session (ServiceBinding P))
      (e : Error)
      → P.unmarshal_map "" ≡ fail e
      → s.obj.for_provider.parameters ≡ ""
      → (x : Error) × (bind P w oid disable_async s ≡ (err x, s))
  unfolding ◌>>=◌ bind convert_specs_data
  bind_without_parameters oid disable_async s e refused empty =
      elim (Fallible-cases (convert_specs_data P s.obj)) [
        | inl (x, failed) ↦
            (wrap (of_binding BindingError.convert_binding_spec_failed) x, ground arith)
        | inr (specs, converted) ↦ absurd (ground arith)
      ]
