-- ===== src/Controller/Binding/Waiting.antt =====
-- The observation of a binding whose last operation has ended.
use provider_osb.Base.{
  Option, String, ℕ, suc, ◌+◌, true, ◌≡◌, ◌≢◌, inl, inr, refl, none, some, arith, length, eq_iff,
}
use provider_osb.Errors.{done}
use provider_osb.Exec.Rules.{Fallible-cases}
use provider_osb.Osb.{
  OriginatingIdentity, BindingLastOperationRequest, LastOperationResponse, succeeded, in_progress,
  answer, LastOperationState,
}
use provider_osb.Platform.{Platform, World}
use provider_osb.Exec.{Session, ok, ◌>>=◌, ◌>>◌}
use provider_osb.Util.{handle_async_status, update_status_from_last_op}
use provider_osb.Util.Kube.{get_latest_kube_object}
use provider_osb.Binding.{
  handle_async_status_setter, set_last_operation_key, set_conditions, set_last_operation_state,
  ServiceBinding, is_state_in_progress, last_operation_status_setter,
}
use provider_osb.Binding.Requests.{build_binding_last_operation_request}
use provider_osb.Binding.Operations.Observe.{
  handle_last_operation_in_progress, observe_operation, observe_state,
}
use provider_osb.Controller.Binding.{External, observe, observation}
use provider_osb.Controller.Binding.Readiness.{ready, IsBound}

abbrev ended : LastOperationResponse
ended = record { state = succeeded; description = none }

-- Each poll of a binding reports success, and Kubernetes has the object that is asked for as it is.
pub record PollsSucceed {P : Platform} (w : World P (ServiceBinding P)) : Type 0 where
  pub polled :
      (n : ℕ) (r : BindingLastOperationRequest)
      → w.poll_binding_last_operation n r ≡ answer (some ended)
  pub got : (n : ℕ) (sb : ServiceBinding P) → w.kube_get n sb ≡ record { error = none; object = sb }

-- What a poll can be asked with.
pub record IsComplete {P : Platform} (oid : OriginatingIdentity) (sb : ServiceBinding P)
    : Type 0 where
  pub identity : (oid.platform ≢ "") × (oid.value ≢ "")
  pub spec :
      (sb.for_provider.instance_id ≢ "")
      × (sb.for_provider.plan_id ≢ "")
      × (sb.for_provider.service_id ≢ "")
  pub named : P.get_external_name sb.meta ≢ ""

pub async-in_progress :
    (P : Platform) (key : Option String) (sb : ServiceBinding P)
    → (handle_async_status (handle_async_status_setter P) key sb).at_provider.last_operation_state
      ≡ in_progress
unfolding handle_async_status handle_async_status_setter set_last_operation_state
    set_last_operation_key
async-in_progress P none sb = refl
async-in_progress P (some key) sb = refl

-- A binding that is marked as in progress keeps its metadata and its spec.
pub async-Marked :
    (P : Platform) (key : Option String) (sb : ServiceBinding P)
    → let t = handle_async_status (handle_async_status_setter P) key sb in
      (t.meta ≡ sb.meta) × (t.for_provider ≡ sb.for_provider) × (is_state_in_progress P t ≡ true)
unfolding handle_async_status handle_async_status_setter set_last_operation_state
    set_last_operation_key is_state_in_progress
async-Marked P none sb = (refl, refl, refl)
async-Marked P (some key) sb = (refl, refl, refl)

module _ (P : Platform) (w : World P (ServiceBinding P)) (c : External) where
  poll_request :
      (sb : ServiceBinding P)
      → IsComplete c.originating_identity sb
      → (q : BindingLastOperationRequest) × (build_binding_last_operation_request P sb
            c.originating_identity
          ≡ done q)
  unfolding build_binding_last_operation_request
  poll_request sb complete =
      elim (Fallible-cases (build_binding_last_operation_request P sb c.originating_identity)) [
        | inl (x, refused) ↦ absurd (
            ground (
              arith,
              complete.identity,
              complete.spec,
              complete.named,
              eq_iff c.originating_identity.platform "",
              eq_iff c.originating_identity.value "",
              eq_iff sb.for_provider.instance_id "",
              eq_iff sb.for_provider.plan_id "",
              eq_iff sb.for_provider.service_id "",
              eq_iff (P.get_external_name sb.meta) "",
            ))
        | inr built ↦ built
      ]

  -- What a poll leaves.
  pub record Polled (answered : LastOperationState) (s t : Session (ServiceBinding P))
      : Type 0 where
    pub meta : t.obj.meta ≡ s.obj.meta
    pub spec : t.obj.for_provider ≡ s.obj.for_provider
    pub state : t.obj.at_provider.last_operation_state ≡ answered
    pub longer : length t.calls ≡ length s.calls + 2

  abbrev noted : LastOperationResponse → ServiceBinding P → ServiceBinding P
  noted = update_status_from_last_op (last_operation_status_setter P)

  noted_lem :
      (r : LastOperationResponse) (sb : ServiceBinding P)
      → ((noted r sb).meta ≡ sb.meta)
        × ((noted r sb).for_provider ≡ sb.for_provider)
        × ((noted r sb).at_provider.last_operation_state ≡ r.state)
  unfolding update_status_from_last_op last_operation_status_setter set_conditions
      set_last_operation_state
  noted_lem r sb = (ground arith, ground arith, ground arith)

  -- A poll that is answered: the resource is reported without details.
  pub observe-Polled :
      (s : Session (ServiceBinding P)) (reply : BindingLastOperationRequest → LastOperationResponse)
      → ((q : BindingLastOperationRequest)
          → w.poll_binding_last_operation (length s.calls) q ≡ answer (some (reply q)))
      → ((n : ℕ) (sb : ServiceBinding P) → w.kube_get n sb ≡ record { error = none; object = sb })
      → IsComplete c.originating_identity s.obj
      → is_state_in_progress P s.obj ≡ true
      → let (result, t) = observe P w c s in
        (result ≡ ok (ready none))
        × ((q : BindingLastOperationRequest) × Polled (reply q).state s t)
  unfolding ◌>>=◌ observe observation observe_state observe_operation get_latest_kube_object
      handle_last_operation_in_progress set_conditions
  observe-Polled s reply polled got complete waiting =
      let (q, built) = poll_request s.obj complete in
      let answered = polled q in
      let (meta, spec, state) = noted_lem (reply q) s.obj in
      let read = got (suc (length s.calls)) s.obj in
      rw (waiting, built, answered, ◌>>◌, read)
        (refl, (q, record { meta = meta; spec = spec; state = state; longer = omega arith }))

  pub Polled-IsComplete :
      {a : LastOperationState} (s t : Session (ServiceBinding P))
      → IsComplete c.originating_identity s.obj
      → Polled a s t
      → IsComplete c.originating_identity t.obj
  Polled-IsComplete s t complete polled = record {
    identity = complete.identity;
    spec = rw polled.spec complete.spec;
    named = rw polled.meta complete.named;
  }

  pub Polled-IsBound :
      (s t : Session (ServiceBinding P))
      → IsComplete c.originating_identity s.obj
      → Polled succeeded s t
      → IsBound t.obj
  unfolding is_state_in_progress
  Polled-IsBound s t complete polled = record {
    identified = rw polled.spec complete.spec.0;
    named = rw polled.meta complete.named;
    idle = rw polled.state refl;
  }

  -- The poll ends the operation: the resource is reported without details, and waits no longer.
  pub observe-ends :
      (s : Session (ServiceBinding P))
      → PollsSucceed w
      → IsComplete c.originating_identity s.obj
      → is_state_in_progress P s.obj ≡ true
      → let (result, t) = observe P w c s in
        (result ≡ ok (ready none))
        × IsBound t.obj
        × (t.obj.meta ≡ s.obj.meta)
        × (t.obj.for_provider ≡ s.obj.for_provider)
  observe-ends s ends complete waiting =
      let (seen, (q, polled)) =
        observe-Polled s (λ q. ended) (ends.polled (length s.calls)) ends.got complete waiting in
      (seen, Polled-IsBound s (observe P w c s).1 complete polled, polled.meta, polled.spec)
