-- ===== src/Controller/Binding/Convergence.antt =====
-- A rotation of a binding, and the observations that follow it.
use provider_osb.Base.{
  true, ℕ, suc, String, false, ◌≡◌, ◌≢◌, inl, inr, refl, some, arith, length, eq_iff,
}
use provider_osb.Errors.{done}
use provider_osb.Exec.Rules.{Fallible-cases}
use provider_osb.Osb.{RotateBindingRequest, BindResponse, GetBindingResponse, answer, in_progress}
use provider_osb.Platform.{Platform, World}
use provider_osb.Platform.Laws.{IsLawful, ReadsBack}
use provider_osb.Exec.{Session, ok, ◌>>=◌}
use provider_osb.Util.{Credentials}
use provider_osb.Binding.{
  ServiceBinding, is_state_in_progress, set_external_name, get_external_name,
}
use provider_osb.Binding.Requests.{build_rotate_binding_request}
use provider_osb.Binding.Operations.{trigger_rotation, extract_credentials}
use provider_osb.Controller.{ExternalUpdate}
use provider_osb.Controller.Binding.{External, observe, update}
use provider_osb.Controller.Binding.Readiness.{ready, Agrees, Reports, observe-ready}

-- The broker rotates at once.
pub record RotatesAtOnce {P : Platform} (w : World P (ServiceBinding P)) : Type 0 where
  pub resp : BindResponse P.Endpoints P.VolumeMounts
  pub at_once : resp.async ≡ false
  pub rotated : (n : ℕ) (r : RotateBindingRequest) → w.rotate_binding n r ≡ answer (some resp)

module _ (P : Platform) (w : World P (ServiceBinding P)) (c : External) where
  built-identified :
      (sb : ServiceBinding P) (id : String) (r : RotateBindingRequest)
      → build_rotate_binding_request P sb c.originating_identity id ≡ done r
      → (sb.for_provider.instance_id ≢ "") × (id ≢ "")
  unfolding build_rotate_binding_request
  built-identified sb id r built =
      (ground (arith, eq_iff sb.for_provider.instance_id ""), ground (arith, eq_iff id ""))

  update_lem :
      (s : Session (ServiceBinding P)) (u : ExternalUpdate)
      → RotatesAtOnce w
      → (update P w c s).0 ≡ ok u
      → (s.obj.for_provider.instance_id ≢ "")
        × (w.new_uuid (length s.calls) ≢ "")
        × ((update P w c s).1.obj ≡ set_external_name P (w.new_uuid (length s.calls)) s.obj)
  unfolding ◌>>=◌ update trigger_rotation set_external_name
  update_lem s u broker h =
      let id : String = w.new_uuid (length s.calls) in
      elim (Fallible-cases (build_rotate_binding_request P s.obj c.originating_identity id)) [
        | inl (x, refused) ↦ absurd (ground arith)
        | inr (r, built) ↦
            let (identified, fresh) = built-identified s.obj id r built in
            let reply = broker.rotated (suc (length s.calls)) r in
            elim (Fallible-cases (extract_credentials P broker.resp.credentials)) [
              | inl (x, unread) ↦ absurd (ground arith)
              | inr (creds, read) ↦
                  (identified, fresh, rw (built, reply, broker.at_once, read) refl)
            ]
      ]

  -- If a new UUID is read back as the external name it was set to, JSON reads back what it wrote, the
  -- broker rotates at once, and then reports the new identifier with the parameters that the spec is
  -- read as, credentials that can be marshalled, and no time to renew that the clock reaches, then an
  -- update that succeeds, of a binding whose last operation is not in progress, settles it, as long as
  -- the identifier that it set is kept: the next observation asks the broker for the new identifier,
  -- and reports that the binding exists, is up to date, and has those credentials.
  pub rotation-settles :
      (report : GetBindingResponse P.Endpoints P.VolumeMounts) (creds : Credentials)
      (s : Session (ServiceBinding P)) (u : ExternalUpdate)
      → IsLawful P
      → ReadsBack P
      → RotatesAtOnce w
      → Reports P w report (w.new_uuid (length s.calls))
      → Agrees w s.obj.for_provider.parameters report creds
      → is_state_in_progress P s.obj ≡ false
      → (update P w c s).0 ≡ ok u
      → (observe P w c (update P w c s).1).0 ≡ ok (ready creds)
  unfolding set_external_name is_state_in_progress
  rotation-settles report creds s u lawful reads broker reports agrees idle h =
      let (identified, fresh, after) = update_lem s u broker h in
      let id : String = w.new_uuid (length s.calls) in
      let named = lawful.get-set_external_name s.obj.meta id in
      observe-ready P w c reads report creds (update P w c s).1
        (record {
          identified = rw after identified;
          named = rw (after, named) fresh;
          idle = rw after idle;
        })
        (rw (after, named) reports) (rw after agrees)

-- The broker rotates asynchronously.
pub record RotatesLater {P : Platform} (w : World P (ServiceBinding P)) : Type 0 where
  pub resp : BindResponse P.Endpoints P.VolumeMounts
  pub later : resp.async ≡ true
  pub rotated : (n : ℕ) (r : RotateBindingRequest) → w.rotate_binding n r ≡ answer (some resp)

module _ (P : Platform) (w : World P (ServiceBinding P)) (c : External) where
  open c use {originating_identity as oid}

  -- What an asynchronous rotation has found, and leaves: a binding that waits.
  record IsRotating (sb t : ServiceBinding P) : Type 0 where
    pub identity : (oid.platform ≢ "") × (oid.value ≢ "")
    pub identified : sb.for_provider.instance_id ≢ ""
    pub named : P.get_external_name sb.meta ≢ ""
    pub waiting : t.at_provider.last_operation_state ≡ in_progress
