-- ===== src/Instance/Operations/Deletion.antt =====
-- What a deprovisioning sends to the broker, and when.
use provider_osb.Base.{
  Bool, Bool-cases, length, is_empty, refl, false, not, ◌≡◌, ◌≢◌, ◌⊎◌, inl, inr, none, some, List,
  ◌∷◌, arith, eq_iff,
}
use provider_osb.Errors.{done}
use provider_osb.Osb.{
  OriginatingIdentity, DeprovisionRequest, DeprovisionResponse, Reply, answer, failure, deleting,
}
use provider_osb.Platform.{Platform, World, Call}
use provider_osb.Exec.{Session, ◌>>=◌}
use provider_osb.Instance.{ServiceInstance, update_status_for_async_deletion}
use provider_osb.Exec.Rules.{Fallible-cases}
use provider_osb.Instance.Requests.{build_deprovision_request}
use provider_osb.Instance.Operations.{deprovision, request_deprovision, after_deprovision}

module _ (P : Platform) (s : Session (ServiceInstance P)) where
  open s.obj use {for_provider as spec, at_provider}

  -- The one request that a deprovisioning may send.
  pub record IsAllowed (oid : OriginatingIdentity) (disable_async : Bool) (r : DeprovisionRequest)
      : Type 0 where
    pub no_bindings : at_provider.has_active_bindings ≡ false
    pub instance_id : (r.instance_id ≡ spec.instance_id) × (spec.instance_id ≢ "")
    pub service_id : (r.service_id ≡ spec.service_id) × (spec.service_id ≢ "")
    pub plan_id : (r.plan_id ≡ spec.plan_id) × (spec.plan_id ≢ "")
    pub identity : (r.originating_identity ≡ oid) × (oid.platform ≢ "") × (oid.value ≢ "")
    pub accepts_incomplete : r.accepts_incomplete ≡ not disable_async

  build_deprovision_request-IsAllowed :
      (oid : OriginatingIdentity) (disable_async : Bool) (r : DeprovisionRequest)
      → at_provider.has_active_bindings ≡ false
      → build_deprovision_request P s.obj oid disable_async ≡ done r
      → IsAllowed oid disable_async r
  unfolding build_deprovision_request
  build_deprovision_request-IsAllowed oid disable_async r h built = ground (
    arith,
    eq_iff spec.instance_id "",
    eq_iff spec.plan_id "",
    eq_iff spec.service_id "",
    eq_iff oid.platform "",
    eq_iff oid.value "",
  )

-- What the answer to the request adds to the calls.
abbrev pub SavesDeletion :
    {P : Platform} → List (Call (ServiceInstance P)) → List (Call (ServiceInstance P)) → Type 0
SavesDeletion {P} old new =
    (new ≡ old)
    ⊎ ((saved : ServiceInstance P) × (new ≡ Call.kube_status_update saved ∷ old)
        × (saved.at_provider.last_operation_state ≡ deleting))

module _ (P : Platform) (w : World P (ServiceInstance P)) where
  after_deprovision-SavesDeletion :
      (reply : Reply DeprovisionResponse) (t : Session (ServiceInstance P))
      → SavesDeletion t.calls (after_deprovision P w reply t).1.calls
  unfolding ◌>>=◌ after_deprovision update_status_for_async_deletion
  after_deprovision-SavesDeletion (failure e) t = inl (ground arith)
  after_deprovision-SavesDeletion (answer none) t = inl refl
  after_deprovision-SavesDeletion (answer (some resp)) t = elim (Bool-cases resp.async) [
    | inl async ↦ inr (update_status_for_async_deletion P resp t.obj, ground arith, ground arith)
    | inr sync ↦ inl (ground arith)
  ]

  module _ (s : Session (ServiceInstance P)) where
    -- The calls that a deprovisioning adds to those of `s`.
    abbrev pub SendsAtMostOne :
        OriginatingIdentity → Bool → List (Call (ServiceInstance P)) → Type 0
    SendsAtMostOne oid disable_async calls =
        (calls ≡ s.calls)
        ⊎ ((r : DeprovisionRequest) × IsAllowed P s oid disable_async r
            × SavesDeletion (Call.deprovision_instance r ∷ s.calls) calls)

    request_deprovision-SendsAtMostOne :
        (oid : OriginatingIdentity) (disable_async : Bool)
        → s.obj.at_provider.has_active_bindings ≡ false
        → SendsAtMostOne oid disable_async (request_deprovision P w oid disable_async s).1.calls
    unfolding ◌>>=◌ request_deprovision
    request_deprovision-SendsAtMostOne oid disable_async h =
        elim (Fallible-cases (build_deprovision_request P s.obj oid disable_async)) [
          | inl (e, failed) ↦ inl (ground arith)
          | inr (r, built) ↦ inr (
            r,
            build_deprovision_request-IsAllowed P s oid disable_async r h built,
            rw (built, request_deprovision)
                (after_deprovision-SavesDeletion (w.deprovision_instance (length s.calls) r)
                  (record s { calls = Call.deprovision_instance r ∷ s.calls })),
          )
        ]

    -- A deprovisioning makes no call, or it sends one request, and then the instance has an id, a
    -- service, a plan and no active bindings, the request carries them and the identity, and the only
    -- other call is to save the status with the state `deleting`.
    pub deprovision-SendsAtMostOne :
        (oid : OriginatingIdentity) (disable_async : Bool)
        → SendsAtMostOne oid disable_async (deprovision P w oid disable_async s).1.calls
    unfolding ◌>>=◌ deprovision
    deprovision-SendsAtMostOne oid disable_async =
        elim (Bool-cases s.obj.at_provider.has_active_bindings) [
          | inl active ↦ inl (ground arith)
          | inr free ↦ elim (Bool-cases (is_empty s.obj.for_provider.instance_id)) [
            | inl empty ↦ inl (ground arith)
            | inr set ↦
                let same : (deprovision P w oid disable_async s).1.calls
                    ≡ (request_deprovision P w oid disable_async s).1.calls =
                  ground arith in
                rw same (request_deprovision-SendsAtMostOne oid disable_async free)
          ]
        ]
