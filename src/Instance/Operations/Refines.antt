-- ===== src/Instance/Operations/Refines.antt =====
-- The operations of an instance, beside the life cycle.
pub mod Polls
use provider_osb.Base.{
  ℕ, String, Bool, Bool-cases, false, ◌≡◌, ◌≢◌, if◌then◌else◌, inl, inr, refl, Option, none, some,
  arith, eq_iff,
}
use provider_osb.Errors.{InstanceError}
use provider_osb.Osb.{
  OriginatingIdentity, AsyncResponse, DeprovisionResponse, LastOperationResponse,
  GetInstanceResponse, Reply, answer, failure,
}
use provider_osb.Platform.{Platform, World}
use provider_osb.Exec.{◌>>=◌}
use provider_osb.Exec.Keeps.{
  Keeps, Keeps-pure, Keeps-raise, Keeps-crash, Keeps-lift, Keeps-bind, Keeps-wrapping, Keeps-gets,
  Keeps-kube_call, Keeps-if, keeps_rules, Keeps-gets-bind, Keeps-ask-bind,
}
use provider_osb.Exec.Leads.{
  Leads, Weakens, Leads-weaken, Leads-wrapping, Leads-if, Leads-if_known, Leads-modify, Leads-keep,
  Leads-then, Leads-lift_bind, Leads-ask_bind, Leads-gets_bind,
}
use provider_osb.Util.{is_resource_gone, update_status_from_last_op}
use provider_osb.Util.Kube.{get_latest_kube_object}
use provider_osb.Instance.{
  ServiceInstance, is_instance_id_empty, is_already_deleted, has_active_bindings,
  has_last_operation, update_status_from_osb, update_status_for_async_deletion,
  last_operation_status_setter, set_key_if_present,
}
use provider_osb.Instance.Lifecycle.{
  View, view, key_after, in_state, MayStep, Activity, polling, sending, removing, polled, sent,
  sent_async, removed_async,
}
use provider_osb.Instance.Operations.{
  save_status, after_osb, after_deprovision, after_poll, provision, update, deprovision,
  request_deprovision, handle_last_operation_in_progress, handle_deletion_with_active_bindings,
  observe_external, observe_operation, observe_deletion, after_get, observe_state,
}

-- Kubernetes gives the status back as it was written: nobody else writes it.
pub record EchoesStatus {P : Platform} (w : World P (ServiceInstance P)) : Type 0 where
  pub got : (n : ℕ) (si : ServiceInstance P) → (w.kube_get n si).object.at_provider ≡ si.at_provider
  pub saved :
      (n : ℕ) (si : ServiceInstance P)
      → (w.kube_status_update n si).object.at_provider ≡ si.at_provider

abbrev pub Before : {P : Platform} → View → ServiceInstance P → Type 0
Before v si = v ≡ view si

abbrev pub After : {P : Platform} → View → Activity → ServiceInstance P → Type 0
After v a si = MayStep a v (view si)

pub still :
    {P : Platform} (v : View) (a : Activity) → Weakens (Before {P = P} v) (After {P = P} v a)
still v a si h = inl h

module _ (P : Platform) (w : World P (ServiceInstance P)) (k : EchoesStatus w) (v : View) where
  pub save_status-After : (a : Activity) → Keeps (After v a) (save_status P w)
  save_status-After a = Keeps-wrapping _ _ (Keeps-kube_call _ _ λ n si h. rw (k.saved n si) h)

  set_key-view :
      (key : Option String) (si : ServiceInstance P)
      → view (set_key_if_present P key si)
        ≡ record (view si) { key = key_after key si.at_provider.last_operation_key }
  unfolding set_key_if_present
  set_key-view none si = refl
  set_key-view (some key) si = refl

  osb-After :
      (resp : AsyncResponse) (si : ServiceInstance P)
      → Before v si
      → After v sending (update_status_from_osb P resp si)
  unfolding update_status_from_osb
  osb-After resp si h = elim (Bool-cases resp.async) [
    | inl later ↦ rw (later, h, set_key-view) (inr (sent_async resp.operation_key))
    | inr now ↦ rw (now, h) (inr sent)
  ]

  after_osb-After :
      (e : InstanceError) (reply : Reply AsyncResponse)
      → Leads (Before v) (After v sending) (after_osb P w e reply)
  unfolding after_osb
  after_osb-After e (failure cause) = Leads-weaken _ (still v sending) (Keeps-raise _)
  after_osb-After e (answer none) = Leads-weaken _ (still v sending) Keeps-crash
  after_osb-After e (answer (some resp)) =
      Leads-keep _ _ (Leads-modify _ (osb-After resp)) (λ _. save_status-After sending)

  pub provision-After :
      (disable_async : Bool) → Leads (Before v) (After v sending) (provision P w disable_async)
  unfolding provision
  provision-After disable_async = Leads-gets_bind _ _ λ si.
      Leads-lift_bind (still v sending) _ _ λ params.
        Leads-lift_bind (still v sending) _ _ λ ctx_map.
          Leads-lift_bind (still v sending) _ _ λ req. Leads-ask_bind _ _ _ (after_osb-After _)

  pub update-After :
      (oid : OriginatingIdentity) (disable_async : Bool)
      → Leads (Before v) (After v sending) (update P w oid disable_async)
  unfolding update
  update-After oid disable_async =
      Leads-gets_bind _ _
        λ si. Leads-lift_bind (still v sending) _ _ λ req. Leads-ask_bind _ _ _ (after_osb-After _)

  module _ (unbound : v.bound ≡ false) where
    deletion-After :
        (resp : DeprovisionResponse) (si : ServiceInstance P)
        → Before v si
        → After v removing (update_status_for_async_deletion P resp si)
    unfolding update_status_for_async_deletion
    deletion-After resp si h =
        let free : si.at_provider.has_active_bindings ≡ false = rw h at unbound in
        rw (h, set_key-view) (inr (removed_async free resp.operation_key))

    after_deprovision-After :
        (reply : Reply DeprovisionResponse)
        → Leads (Before v) (After v removing) (after_deprovision P w reply)
    unfolding after_deprovision
    after_deprovision-After (failure e) =
        Leads-weaken _ (still v removing)
          (Keeps-if (is_resource_gone e) _ _ (Keeps-pure _) (Keeps-raise _))
    after_deprovision-After (answer none) = Leads-weaken _ (still v removing) Keeps-crash
    after_deprovision-After (answer (some resp)) =
        Leads-if resp.async _ _
          (Leads-keep _ _ (Leads-modify _ (deletion-After resp)) (λ _. save_status-After removing))
          (Leads-weaken _ (still v removing) (Keeps-pure _))

    request_deprovision-After :
        (oid : OriginatingIdentity) (disable_async : Bool)
        → Leads (Before v) (After v removing) (request_deprovision P w oid disable_async)
    unfolding request_deprovision
    request_deprovision-After oid disable_async = Leads-gets_bind _ _ λ si.
        Leads-lift_bind (still v removing) _ _ λ req. Leads-ask_bind _ _ _ after_deprovision-After

  -- An instance with bindings is left as it is.
  pub deprovision-After :
      (oid : OriginatingIdentity) (disable_async : Bool)
      → Leads (Before v) (After v removing) (deprovision P w oid disable_async)
  unfolding ◌>>=◌ deprovision has_active_bindings
  deprovision-After oid disable_async = record {
    at = λ s h.
        (Leads-if (is_instance_id_empty P s.obj) _ _
            (Leads-weaken _ (still v removing) (Keeps-pure _))
            (Leads-if (is_already_deleted P s.obj) _ _
              (Leads-weaken _ (still v removing) (Keeps-pure _))
              (Leads-if_known s.obj.at_provider.has_active_bindings _ _
                (λ bound. Leads-weaken _ (still v removing) (Keeps-raise _))
                (λ free. request_deprovision-After (rw h free) oid disable_async)))).at
          s h;
  }
