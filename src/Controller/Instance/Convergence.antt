-- ===== src/Controller/Instance/Convergence.antt =====
-- An update of an instance, and the observation that follows it.
use provider_osb.Base.{ℕ, true, false, ◌≡◌, ◌≢◌, refl, inl, inr, none, some, arith, length, eq_iff}
use provider_osb.Errors.{done}
use provider_osb.Exec.Rules.{Fallible-cases}
use provider_osb.Json.{Fields, object}
use provider_osb.Json.Reflexive.{well_keyed}
use provider_osb.Common.{nothing_to_do}
use provider_osb.Common.Serial.{to_parameters}
use provider_osb.Osb.{
  UpdateInstanceRequest, AsyncResponse, GetInstanceRequest, GetInstanceResponse, answer,
}
use provider_osb.Platform.{Platform, World}
use provider_osb.Exec.{Session, ok, ◌>>=◌}
use provider_osb.Instance.{
  ServiceInstance, is_instance_id_empty, has_last_operation, update_status_from_osb,
}
use provider_osb.Instance.Requests.{build_update_instance_request, build_get_instance_request}
use provider_osb.Instance.Operations as Operations
use provider_osb.Instance.Operations.{compare_spec_with_osb, observe_state, observe_external}
use provider_osb.Instance.Operations.Polling.{Echoes}
use provider_osb.Instance.Operations.Settled.{IsContext, compare_spec_with_osb-settled}
use provider_osb.Controller.{ExternalObservation, ExternalUpdate}
use provider_osb.Controller.Instance.{External, observe, update, observation}

-- The broker applies an update at once, and then reports it.
pub record AppliesAtOnce {P : Platform} (w : World P (ServiceInstance P)) (si : ServiceInstance P)
    (params : Fields) : Type 0 where
  pub resp : AsyncResponse
  pub report : GetInstanceResponse
  pub updated : (n : ℕ) (r : UpdateInstanceRequest) → w.update_instance n r ≡ answer (some resp)
  pub at_once : resp.async ≡ false
  pub got : (n : ℕ) (r : GetInstanceRequest) → w.get_instance n r ≡ answer (some report)
  pub plan : report.plan_id ≡ si.for_provider.plan_id
  pub parameters : report.parameters ≡ some params

-- The resource exists and is as the spec says.
abbrev pub up_to_date : ExternalObservation
up_to_date = record {
  resource_exists = true;
  resource_up_to_date = true;
  connection_details = none;
}

module _ (P : Platform) (w : World P (ServiceInstance P)) (c : External) where
  built-identified :
      (si : ServiceInstance P) (r : UpdateInstanceRequest)
      → build_update_instance_request P si c.originating_identity c.disable_async ≡ done r
      → si.for_provider.instance_id ≢ ""
  unfolding build_update_instance_request
  built-identified si r built = ground (arith, eq_iff si.for_provider.instance_id "")

  update_lem :
      (e : Echoes P w) (resp : AsyncResponse) (s : Session (ServiceInstance P)) (u : ExternalUpdate)
      → ((n : ℕ) (r : UpdateInstanceRequest) → w.update_instance n r ≡ answer (some resp))
      → (update P w c s).0 ≡ ok u
      → (s.obj.for_provider.instance_id ≢ "")
        × ((update P w c s).1.obj ≡ update_status_from_osb P resp s.obj)
  unfolding ◌>>=◌ update Operations.update
  update_lem e resp s u updated h =
      elim (Fallible-cases
        (build_update_instance_request P s.obj c.originating_identity c.disable_async)) [
          | inl (x, refused) ↦ absurd (ground arith)
          | inr (r, built) ↦
              (built-identified s.obj r built, rw (built, updated (length s.calls) r, e.saved) refl)
        ]

  -- An update at once changes neither the metadata nor the spec nor the key of the operation.
  record Same (si t : ServiceInstance P) : Type 0 where
    pub meta : t.meta ≡ si.meta
    pub spec : t.for_provider ≡ si.for_provider
    pub key : t.at_provider.last_operation_key ≡ si.at_provider.last_operation_key

  update_status_from_osb-Same :
      (resp : AsyncResponse) (si : ServiceInstance P)
      → resp.async ≡ false
      → Same si (update_status_from_osb P resp si)
  unfolding update_status_from_osb
  update_status_from_osb-Same resp si at_once = record {
    meta = ground arith;
    spec = ground arith;
    key = ground arith;
  }

  get_request :
      (si : ServiceInstance P)
      → si.for_provider.instance_id ≢ ""
      → (r : GetInstanceRequest) × (build_get_instance_request P si ≡ done r)
  unfolding build_get_instance_request
  get_request si identified = elim (Fallible-cases (build_get_instance_request P si)) [
    | inl (x, refused) ↦ absurd (ground (arith, eq_iff si.for_provider.instance_id ""))
    | inr built ↦ built
  ]

  observe-settled :
      (t : Session (ServiceInstance P)) (report : GetInstanceResponse)
      → t.obj.for_provider.instance_id ≢ ""
      → t.obj.at_provider.last_operation_key ≡ ""
      → P.was_deleted t.obj.meta ≡ false
      → ((n : ℕ) (r : GetInstanceRequest) → w.get_instance n r ≡ answer (some report))
      → compare_spec_with_osb P t.obj (some report) ≡ done nothing_to_do
      → (observe P w c t).0 ≡ ok up_to_date
  unfolding ◌>>=◌ observe observation observe_state is_instance_id_empty has_last_operation
      observe_external
  observe-settled t report identified unnamed present got settled =
      let (r, built) = get_request t.obj identified in
      let known : is_instance_id_empty P t.obj ≡ false =
        ground (arith, eq_iff t.obj.for_provider.instance_id "") in
      let idle : has_last_operation P t.obj ≡ false =
        ground (arith, unnamed, eq_iff t.obj.at_provider.last_operation_key "") in
      rw (known, idle, present, built, got (length t.calls) r, settled)

  -- If the broker applies an update at once and then reports the plan of the spec and the parameters
  -- that the spec is read as, and Kubernetes accepts what it is given and gives it back, then an update
  -- that succeeds, of an instance that is not to be deleted, has no key of an operation, and has
  -- parameters that are not the empty text, settles it: the next observation reports that the resource
  -- exists and is up to date. No key stands twice in a map.
  pub update-settles :
      (s : Session (ServiceInstance P)) (params : Fields) (u : ExternalUpdate)
      → Echoes P w
      → AppliesAtOnce w s.obj params
      → IsContext s.obj.for_provider.context
      → well_keyed (object params) ≡ true
      → s.obj.for_provider.parameters ≢ ""
      → to_parameters P s.obj.for_provider.parameters ≡ done (some params)
      → s.obj.at_provider.last_operation_key ≡ ""
      → P.was_deleted s.obj.meta ≡ false
      → (update P w c s).0 ≡ ok u
      → (observe P w c (update P w c s).1).0 ≡ ok up_to_date
  update-settles s params u e broker context keyed filled read unnamed present h =
      let (identified, after) = update_lem e broker.resp s u broker.updated h in
      let same = update_status_from_osb-Same broker.resp s.obj broker.at_once in
      let settled =
        compare_spec_with_osb-settled P s.obj broker.resp broker.report params context keyed filled
          read broker.plan broker.parameters in
      observe-settled (update P w c s).1 broker.report (rw (after, same.spec) identified)
        (rw (after, same.key) unnamed) (rw (after, same.meta) present) broker.got (rw after settled)
