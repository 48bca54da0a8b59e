-- ===== src/Binding/Operations/Identity.antt =====
-- The identifier under which a binding is created at the broker.
use provider_osb.Base.{inl, inr, ℕ, String, Bool, ◌≡◌, ◌≢◌, List, [], ◌∷◌, arith, eq_iff, length}
use provider_osb.Json.{GoMap}
use provider_osb.Osb.{OriginatingIdentity, BindRequest}
use provider_osb.Platform.{Platform, World, Call}
use provider_osb.Platform.Laws.{IsLawful}
use provider_osb.Exec.{Session, Result, ok, err, panic, ◌>>=◌}
use provider_osb.Exec.Rules.{Fallible-cases, Result-cases}
use provider_osb.Binding.{ServiceBinding, convert_specs_data}
use provider_osb.Binding.Operations.{bind, build_bind_request, handle_bind_request}

module _ {O : Type 0} where
  -- Every bind request among the calls is for this identifier.
  abbrev pub AllBindsFor : String → List (Call O) → Type 0
  AllBindsFor id [] = Unit
  AllBindsFor id (Call.bind r ∷ calls) = (r.binding_id ≡ id) × AllBindsFor id calls
  AllBindsFor id (_ ∷ calls) = AllBindsFor id calls

  abbrev pub NoBinds : List (Call O) → Type 0
  NoBinds [] = Unit
  NoBinds (Call.bind r ∷ calls) = ⊥
  NoBinds (_ ∷ calls) = NoBinds calls

  NoBinds-AllBindsFor : (id : String) (calls : List (Call O)) → NoBinds calls → AllBindsFor id calls
  NoBinds-AllBindsFor id [] h = tt
  NoBinds-AllBindsFor id (Call.bind r ∷ calls) h = absurd h
  NoBinds-AllBindsFor id (_ ∷ calls) h = NoBinds-AllBindsFor id calls h

-- The requests to bind are all for the external name, and none was sent before it was chosen.
pub record HasOneId {P : Platform} (s : Session (ServiceBinding P)) : Type 0 where
  pub same : AllBindsFor (P.get_external_name s.obj.meta) s.calls
  pub unsent : P.get_external_name s.obj.meta ≡ "" → NoBinds s.calls

-- What building the request leaves of a session with one identifier.
abbrev Built :
    {P : Platform}
    → Session (ServiceBinding P)
    → Result BindRequest × Session (ServiceBinding P)
    → Type 0
Built {P} s (ok r, t) =
    (r.binding_id ≡ P.get_external_name t.obj.meta)
    × (P.get_external_name t.obj.meta ≢ "")
    × AllBindsFor (P.get_external_name t.obj.meta) t.calls
Built s (err e, t) = t ≡ s
Built s (panic, t) = t ≡ s

module _ (P : Platform) (w : World P (ServiceBinding P)) (lawful : IsLawful P)
    (fresh : (n : ℕ) → w.new_uuid n ≢ "") where
  build_bind_request-Built :
      (oid : OriginatingIdentity) (ctx_map params : GoMap) (disable_async : Bool)
      (s : Session (ServiceBinding P))
      → HasOneId s
      → Built s (build_bind_request P w oid ctx_map params disable_async s)
  unfolding ◌>>=◌ build_bind_request
  build_bind_request-Built oid ctx_map params disable_async s h = ground (
    arith,
    eq_iff (P.get_external_name s.obj.meta) "",
    fresh (length s.calls),
    lawful.get-set_external_name s.obj.meta (w.new_uuid (length s.calls)),
    NoBinds-AllBindsFor (w.new_uuid (length s.calls)) s.calls,
  )

  handle_bind_request-HasOneId :
      (r : BindRequest) (t : Session (ServiceBinding P))
      → Built {P = P} t (ok r, t)
      → HasOneId (handle_bind_request P w r t).1
  unfolding ◌>>=◌ handle_bind_request
  handle_bind_request-HasOneId r t h = ground arith

  -- If an external name that was set is read back and a fresh UUID is never empty, a call of `Bind`
  -- keeps, whatever the broker answers, that every request to bind in the calls is for the external
  -- name of the object, and that there is none while that name is empty.
  pub bind-HasOneId :
      (oid : OriginatingIdentity) (disable_async : Bool) (s : Session (ServiceBinding P))
      → HasOneId s
      → HasOneId (bind P w oid disable_async s).1
  unfolding ◌>>=◌ bind
  bind-HasOneId oid disable_async s h = elim (Fallible-cases (convert_specs_data P s.obj)) [
    | inl (e, failed) ↦ ground arith
    | inr (specs, converted) ↦
        let t = build_bind_request P w oid specs.0 specs.1 disable_async s in
        elim (Result-cases t.0) [
          | inl (r, made) ↦ ground (
            arith,
            build_bind_request-Built oid specs.0 specs.1 disable_async s h,
            handle_bind_request-HasOneId r t.1,
          )
          | inr refused ↦
              ground (arith, build_bind_request-Built oid specs.0 specs.1 disable_async s h)
        ]
  ]
