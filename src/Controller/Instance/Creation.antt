-- ===== src/Controller/Instance/Creation.antt =====
-- A creation of an instance, and the observation that follows it.
use provider_osb.Base.{
  ℕ, Option, String, true, false, ◌≡◌, ◌≢◌, refl, inl, inr, some, arith, eq_iff, length,
}
use provider_osb.Errors.{done}
use provider_osb.Exec.Rules.{Fallible-cases}
use provider_osb.Json.{GoMap}
use provider_osb.Common.Serial.{to_parameters, to_map}
use provider_osb.Osb.{
  ProvisionRequest, AsyncResponse, LastOperationRequest, LastOperationResponse, answer,
}
use provider_osb.Platform.{Platform, World}
use provider_osb.Exec.{Session, ok, ◌>>=◌, ◌>>◌}
use provider_osb.Instance.{ServiceInstance, update_status_from_osb}
use provider_osb.Instance.Requests.{build_provision_request}
use provider_osb.Instance.Operations.{provision}
use provider_osb.Instance.Operations.Polling.{Echoes}
use provider_osb.Controller.{ExternalCreation}
use provider_osb.Controller.Instance.{External, observe, create}
use provider_osb.Controller.Instance.Convergence.{up_to_date}
use provider_osb.Controller.Instance.Polling.{IsFilled}
use provider_osb.Controller.Instance.Availability.{IsOperating, observe-available}

-- The broker provisions asynchronously and names the operation, and answers each poll.
pub record ProvisionsLater {P : Platform} (w : World P (ServiceInstance P)) : Type 0 where
  pub key : String
  pub named : key ≢ ""
  pub dashboard_url : Option String
  pub accepted :
      (n : ℕ) (r : ProvisionRequest)
      → w.provision_instance n r
        ≡ answer (
            some (record { async = true; dashboard_url = dashboard_url; operation_key = some key }))
  pub reply : LastOperationResponse
  pub polled : (n : ℕ) (q : LastOperationRequest) → w.poll_last_operation n q ≡ answer (some reply)

module _ (P : Platform) (w : World P (ServiceInstance P)) (c : External) where
  abbrev accepted_response : ProvisionsLater w → AsyncResponse
  accepted_response later = record {
    async = true;
    dashboard_url = later.dashboard_url;
    operation_key = some later.key;
  }

  built-identified :
      (si : ServiceInstance P) (params ctx_map : GoMap) (r : ProvisionRequest)
      → build_provision_request P si params ctx_map c.disable_async ≡ done r
      → si.for_provider.instance_id ≢ ""
  unfolding build_provision_request
  built-identified si params ctx_map r built = ground (arith, eq_iff si.for_provider.instance_id "")

  create_lem :
      (e : Echoes P w) (later : ProvisionsLater w) (s : Session (ServiceInstance P))
      (x : ExternalCreation)
      → (create P w c s).0 ≡ ok x
      → (s.obj.for_provider.instance_id ≢ "")
        × ((create P w c s).1.obj ≡ update_status_from_osb P (accepted_response later) s.obj)
  unfolding ◌>>=◌ create provision
  create_lem e later s x h = elim (Fallible-cases (to_parameters P s.obj.for_provider.parameters)) [
    | inl (y, unread) ↦ absurd (ground arith)
    | inr (params, read) ↦ elim (Fallible-cases (to_map P s.obj.for_provider.context)) [
      | inl (y, unwritten) ↦ absurd (ground arith)
      | inr (ctx_map, written) ↦
          elim (Fallible-cases (build_provision_request P s.obj params ctx_map c.disable_async)) [
            | inl (y, refused) ↦ absurd (ground arith)
            | inr (r, built) ↦ (
              built-identified s.obj params ctx_map r built,
              rw (read, written, built, later.accepted (length s.calls) r, ◌>>◌, e.saved) refl,
            )
          ]
    ]
  ]

  accepted-IsOperating :
      (later : ProvisionsLater w) (si : ServiceInstance P)
      → P.was_deleted si.meta ≡ false
      → si.for_provider.instance_id ≢ ""
      → IsOperating (update_status_from_osb P (accepted_response later) si)
  unfolding update_status_from_osb
  accepted-IsOperating later si present identified = record {
    present = present;
    identified = identified;
    named = later.named;
  }

  -- If Kubernetes accepts what it is given and gives it back, the platform and the value of the
  -- controller's identity are not empty, and the broker provisions asynchronously, names the operation
  -- and answers each poll, then a creation that succeeds, of an instance that is not to be deleted, is
  -- followed by an observation that finds it up to date and writes the state of the answer into its
  -- status: it is not created a second time.
  pub create-observed :
      (s : Session (ServiceInstance P)) (x : ExternalCreation) (later : ProvisionsLater w)
      → Echoes P w
      → IsFilled P w c
      → P.was_deleted s.obj.meta ≡ false
      → (create P w c s).0 ≡ ok x
      → let (result, t) = observe P w c (create P w c s).1 in
        (result ≡ ok up_to_date) × (t.obj.at_provider.last_operation_state ≡ later.reply.state)
  create-observed s x later e filled present h =
      let (identified, after) = create_lem e later s x h in
      let waits = accepted-IsOperating later s.obj present identified in
      let (seen, state, conditions) =
        observe-available P w c later.reply (create P w c s).1 e filled (rw after waits)
          (λ q. later.polled _ q) in
      (seen, state)
