-- ===== src/Instance/Operations/Refines/Polls.antt =====
-- The observation of an instance, beside the life cycle.
use provider_osb.Base.{◌≡◌, ◌≢◌, if◌then◌else◌, inr, none, some, arith, eq_iff}
use provider_osb.Osb.{
  OriginatingIdentity, LastOperationResponse, GetInstanceResponse, Reply, answer, failure,
}
use provider_osb.Platform.{Platform, World}
use provider_osb.Exec.{◌>>=◌}
use provider_osb.Exec.Keeps.{
  Keeps, Keeps-pure, Keeps-raise, Keeps-crash, Keeps-lift, Keeps-bind, Keeps-wrapping, Keeps-gets,
  Keeps-kube_call, Keeps-if, keeps_rules, Keeps-gets-bind, Keeps-ask-bind,
}
use provider_osb.Exec.Leads.{
  Leads, Leads-weaken, Leads-wrapping, Leads-if_known, Leads-modify, Leads-keep, Leads-then,
  Leads-lift_bind, Leads-ask_bind, Leads-gets_bind,
}
use provider_osb.Util.{is_resource_gone, update_status_from_last_op}
use provider_osb.Util.Kube.{get_latest_kube_object}
use provider_osb.Instance.{ServiceInstance, has_last_operation, last_operation_status_setter}
use provider_osb.Instance.Lifecycle.{View, view, in_state, polling, polled}
use provider_osb.Instance.Operations.{
  save_status, after_poll, handle_last_operation_in_progress, handle_deletion_with_active_bindings,
  observe_external, observe_operation, observe_deletion, after_get, observe_state,
}
use provider_osb.Instance.Operations.Refines.{EchoesStatus, Before, After, still, save_status-After}

module _ (P : Platform) (w : World P (ServiceInstance P)) (k : EchoesStatus w) (v : View) where
  last_op-view :
      (r : LastOperationResponse) (si : ServiceInstance P)
      → view (update_status_from_last_op (last_operation_status_setter P) r si)
        ≡ in_state r.state (view si)
  unfolding update_status_from_last_op last_operation_status_setter
  last_op-view r si = ground arith

  module _ (named : v.key ≢ "") where
    last_op-After :
        (r : LastOperationResponse) (si : ServiceInstance P)
        → Before v si
        → After v polling (update_status_from_last_op (last_operation_status_setter P) r si)
    unfolding update_status_from_last_op last_operation_status_setter
    last_op-After r si h =
        let key : si.at_provider.last_operation_key ≢ "" = rw h at named in
        rw (h, last_op-view) (inr (polled key r.state))

    get-Before : Keeps (Before v) (get_latest_kube_object P w)
    unfolding get_latest_kube_object
    get-Before = Keeps-wrapping _ _ (Keeps-kube_call _ _ λ n si h. rw (k.got n si) h)

    after_poll-After :
        (reply : Reply LastOperationResponse)
        → Leads (Before v) (After v polling) (after_poll P w reply)
    unfolding after_poll
    after_poll-After (failure e) =
        Leads-weaken _ (still v polling)
          (Keeps-if (is_resource_gone e) _ _ (Keeps-pure _) (Keeps-raise _))
    after_poll-After (answer none) =
        Leads-then (still v polling) _ _ (Keeps-wrapping _ _ get-Before)
          (λ _. Leads-weaken _ (still v polling) Keeps-crash)
    after_poll-After (answer (some r)) =
        Leads-then (still v polling) _ _ (Keeps-wrapping _ _ get-Before) (λ _.
          Leads-keep _ _ (Leads-modify _ (last_op-After r)) (λ _.
            Keeps-bind _ _ (Keeps-gets _) λ deletable.
              Keeps-if deletable _ _ (Keeps-pure _)
                (Keeps-bind _ _ (save_status-After P w k v polling) (λ _. Keeps-pure _))))

    handle_last_operation_in_progress-After :
        (oid : OriginatingIdentity)
        → Leads (Before v) (After v polling) (handle_last_operation_in_progress P w oid)
    unfolding handle_last_operation_in_progress
    handle_last_operation_in_progress-After oid =
        Leads-gets_bind _ _
          λ si. Leads-lift_bind (still v polling) _ _ λ req. Leads-ask_bind _ _ _ after_poll-After

  after_get-Before : (reply : Reply GetInstanceResponse) → Keeps (Before v) (after_get P w reply)
  unfolding after_get
  after_get-Before (failure e) = search keeps_rules
  after_get-Before (answer r) = search keeps_rules

  observe_external-Before : Keeps (Before v) (observe_external P w)
  unfolding observe_external
  observe_external-Before =
      Keeps-gets-bind _ _
        λ si. Keeps-bind _ _ (Keeps-lift _) λ req. Keeps-ask-bind _ _ _ λ n. after_get-Before _

  save_status-Before : Keeps (Before v) (save_status P w)
  save_status-Before = Keeps-wrapping _ _ (Keeps-kube_call _ _ λ n si h. rw (k.saved n si) h)

  observe_unnamed-Before :
      (si : ServiceInstance P)
      → Keeps
          (Before v)
          (if P.was_deleted si.meta then observe_deletion P w else observe_external P w)
  unfolding observe_deletion handle_deletion_with_active_bindings
  observe_unnamed-Before si =
      Keeps-if (P.was_deleted si.meta) _ _
        (Keeps-bind _ _ (Keeps-wrapping _ _ save_status-Before) (λ _. Keeps-pure _))
        observe_external-Before

  -- An instance without the key of an operation is left as it is.
  pub observe_state-After :
      (oid : OriginatingIdentity) → Leads (Before v) (After v polling) (observe_state P w oid)
  unfolding ◌>>=◌ observe_state observe_operation has_last_operation
  observe_state-After oid = record {
    at = λ s h.
        (Leads-if_known (has_last_operation P s.obj) _ _
            (λ named.
              Leads-keep _ _
                (Leads-wrapping _ _ (
                  handle_last_operation_in_progress-After
                    (rw h (ground (arith, named, eq_iff s.obj.at_provider.last_operation_key "")))
                    oid))
                (λ _. Keeps-pure _))
            (λ unnamed. Leads-weaken _ (still v polling) (observe_unnamed-Before s.obj))).at
          s h;
  }
