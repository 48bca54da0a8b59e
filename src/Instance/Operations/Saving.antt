-- ===== src/Instance/Operations/Saving.antt =====
-- What a provisioning saves of the broker's answer.
use provider_osb.Base.{Option-cases, Bool, ◌≡◌, ◌≢◌, ◌⊎◌, inl, inr, some, List, ◌∷◌, arith, length}
use provider_osb.Errors.{done}
use provider_osb.Json.{GoMap}
use provider_osb.Osb.{ProvisionRequest, AsyncResponse, answer}
use provider_osb.Common.Serial.{to_parameters, to_map}
use provider_osb.Platform.{Platform, World, Call}
use provider_osb.Exec.{Session, ok, ◌>>=◌}
use provider_osb.Exec.Rules.{Fallible-cases, Reply-cases}
use provider_osb.Instance.{ServiceInstance, update_status_from_osb}
use provider_osb.Instance.Requests.{build_provision_request}
use provider_osb.Instance.Operations.{provision}

module _ (P : Platform) (w : World P (ServiceInstance P)) (s : Session (ServiceInstance P)) where
  -- The request was answered, and the last call saves the status that the answer gives.
  abbrev pub SavesAnswer : Bool → List (Call (ServiceInstance P)) → Type 0
  SavesAnswer disable_async calls =
      (params : GoMap) × (ctx_map : GoMap) × (r : ProvisionRequest) × (resp : AsyncResponse)
      × (build_provision_request P s.obj params ctx_map disable_async ≡ done r)
      × (to_parameters P s.obj.for_provider.parameters ≡ done params)
      × (to_map P s.obj.for_provider.context ≡ done ctx_map)
      × (w.provision_instance (length s.calls) r ≡ answer (some resp))
      × (calls ≡ (
          Call.kube_status_update (update_status_from_osb P resp s.obj)
          ∷ Call.provision_instance r
          ∷ s.calls))

  -- A provisioning leaves the object as it was and does not succeed, or it saves the status that the
  -- broker's answer gives, to a request built from the parameters and the context of the spec.
  pub provision-SavesAnswer :
      (disable_async : Bool)
      → let (result, t) = provision P w disable_async s in
        ((t.obj ≡ s.obj) × (result ≢ ok tt)) ⊎ SavesAnswer disable_async t.calls
  unfolding ◌>>=◌ provision
  provision-SavesAnswer disable_async =
      elim (Fallible-cases (to_parameters P s.obj.for_provider.parameters)) [
        | inl (e, unread) ↦ inl (ground arith, ground arith)
        | inr (params, read) ↦ elim (Fallible-cases (to_map P s.obj.for_provider.context)) [
          | inl (e, unmapped) ↦ inl (ground arith, ground arith)
          | inr (ctx_map, mapped) ↦
              elim (Fallible-cases (build_provision_request P s.obj params ctx_map disable_async)) [
                | inl (e, refused) ↦ inl (ground arith, ground arith)
                | inr (r, built) ↦ elim (Reply-cases (w.provision_instance (length s.calls) r)) [
                  | inl (e, failed) ↦ inl (ground arith, ground arith)
                  | inr (a, answered) ↦ elim (Option-cases a) [
                    | inl nil ↦ inl (ground arith, ground arith)
                    | inr (resp, given) ↦
                        inr (
                          params,
                          ctx_map,
                          r,
                          resp,
                          built,
                          read,
                          mapped,
                          ground arith,
                          ground arith,
                        )
                  ]
                ]
              ]
        ]
      ]
