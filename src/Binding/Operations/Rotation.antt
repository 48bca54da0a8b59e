-- ===== src/Binding/Operations/Rotation.antt =====
-- What a rotation does to the identifier of a binding.
use provider_osb.Base.{suc, String, ◌≡◌, ◌≢◌, ◌⊎◌, inl, inr, Option, arith, eq_iff, length}
use provider_osb.Util.{Credentials}
use provider_osb.Errors.{done}
use provider_osb.Osb.{OriginatingIdentity, RotateBindingRequest, BindResponse, answer}
use provider_osb.Platform.{Platform, World}
use provider_osb.Exec.{Session, ok, ◌>>=◌}
use provider_osb.Exec.Rules.{Fallible-cases, Reply-cases}
use provider_osb.Binding.{ServiceBinding}
use provider_osb.Binding.Requests.{build_rotate_binding_request}
use provider_osb.Binding.Operations.{trigger_rotation}

module _ (P : Platform) (w : World P (ServiceBinding P)) (oid : OriginatingIdentity)
    (s : Session (ServiceBinding P)) where
  pub record IsRotation (r : RotateBindingRequest) : Type 0 where
    pub successor : r.binding_id ≡ w.new_uuid (length s.calls)
    pub predecessor :
        (r.predecessor_binding_id ≡ P.get_external_name s.obj.meta)
        × (P.get_external_name s.obj.meta ≢ "")
    pub instance_id :
        (r.instance_id ≡ s.obj.for_provider.instance_id) × (s.obj.for_provider.instance_id ≢ "")
    pub identity : (r.originating_identity ≡ oid) × (oid.platform ≢ "") × (oid.value ≢ "")

  build_rotate_binding_request-IsRotation :
      (r : RotateBindingRequest)
      → build_rotate_binding_request P s.obj oid (w.new_uuid (length s.calls)) ≡ done r
      → IsRotation r
  unfolding build_rotate_binding_request
  build_rotate_binding_request-IsRotation r built = ground (
    arith,
    eq_iff s.obj.for_provider.instance_id "",
    eq_iff oid.platform "",
    eq_iff oid.value "",
    eq_iff (P.get_external_name s.obj.meta) "",
  )

  -- The name moves only with a request that names the old one as its predecessor and was answered.
  abbrev pub Moved : Session (ServiceBinding P) → Type 0
  Moved t =
      (r : RotateBindingRequest) × IsRotation r
      × (t.obj.meta ≡ P.set_external_name s.obj.meta r.binding_id)
      × ((a : Option (BindResponse P.Endpoints P.VolumeMounts)) × (w.rotate_binding
              (suc (length s.calls)) r
            ≡ answer a))

  -- A rotation leaves the whole object as it was and does not succeed, or it sets the external name to
  -- the new identifier, and then it has sent a request for that identifier, with the old external
  -- name as predecessor, which the broker answered without an error.
  pub trigger_rotation-Moved :
      let (result, t) = trigger_rotation P w oid s in
      ((t.obj ≡ s.obj) × ((creds : Credentials) → result ≢ ok creds)) ⊎ Moved t
  unfolding ◌>>=◌ trigger_rotation
  trigger_rotation-Moved =
      let id : String = w.new_uuid (length s.calls) in
      elim (Fallible-cases (build_rotate_binding_request P s.obj oid id)) [
        | inl (e, failed) ↦ inl (ground arith, λ creds. ground arith)
        | inr (r, built) ↦ elim (Reply-cases (w.rotate_binding (suc (length s.calls)) r)) [
          | inl (e, refused) ↦ inl (ground arith, λ creds. ground arith)
          | inr (a, answered) ↦ inr (
            r,
            build_rotate_binding_request-IsRotation r built,
            ground (arith, build_rotate_binding_request-IsRotation r built),
            (a, answered),
          )
        ]
      ]
