-- ===== src/Binding/Operations/Observe/Naming.antt =====
-- The observation of a binding leaves its external name alone.
use provider_osb.Base.{Bool, ◌&&◌, ◌≡◌, refl, inl, inr, Option, none, some, arith}
use provider_osb.Errors.{Error, Fallible, done}
use provider_osb.Common.{Action}
use provider_osb.Exec.Rules.{Fallible-cases}
use provider_osb.Osb.{
  OriginatingIdentity, LastOperationResponse, GetBindingResponse, Reply, answer, failure,
}
use provider_osb.Platform.{Platform, World, Condition}
use provider_osb.Exec.{◌>>=◌}
use provider_osb.Exec.Keeps.{
  Keeps, Keeps-pure, Keeps-raise, Keeps-crash, Keeps-lift, Keeps-bind, Keeps-wrapping,
  Keeps-kube_call, Keeps-if, Keeps-modify, Keeps-gets-bind, Keeps-ask-bind,
}
use provider_osb.Util.{
  Credentials, is_resource_gone, remove_finalizer_if_exists, update_status_from_last_op,
}
use provider_osb.Util.Kube.{get_latest_kube_object}
use provider_osb.Binding.{
  ServiceBinding, set_conditions, is_state_in_progress, is_external_name_empty,
  update_binding_status_from_response, last_operation_status_setter,
}
use provider_osb.Binding.StatusLaws.{update_status-Written}
use provider_osb.Binding.Renewal.{BindingAction}
use provider_osb.Binding.Renewal.Conditions.{handle_renewal_bindings-Keeps}
use provider_osb.Binding.Operations.Naming.{
  KeepsName, name_of, OfName, Keeps-finalizer, remove_finalizer-name,
}
use provider_osb.Binding.Operations.Observe.{
  handle_poll_error, after_handled, after_poll, handle_last_operation_in_progress, change,
  compare_parameters, after_renewal, observe_response, after_get, observe_external,
  observe_operation, observe_state,
}

module _ (P : Platform) (w : World P (ServiceBinding P)) (k : KeepsName w)
    {Q : ServiceBinding P → Type 0} (of_name : OfName P w k Q) where
  handle_poll_error-Keeps : (e : Error) → Keeps Q (handle_poll_error P w e)
  unfolding handle_poll_error
  handle_poll_error-Keeps e = Keeps-gets-bind _ _ λ sb.
      Keeps-if (is_resource_gone e && P.was_deleted sb.meta) _ _
        (Keeps-bind _ _
          (Keeps-wrapping _ _ (
            Keeps-finalizer P w k of_name (remove_finalizer_if_exists P)
              (remove_finalizer-name P w k)))
          (λ _. Keeps-pure _))
        (Keeps-pure _)

  after_handled-Keeps : (e : Error) (a : Option Action) → Keeps Q (after_handled P w e a)
  unfolding after_handled
  after_handled-Keeps e none = Keeps-raise _
  after_handled-Keeps e (some a) = Keeps-pure a

  last_op-name :
      (r : LastOperationResponse) (sb : ServiceBinding P)
      → name_of (update_status_from_last_op (last_operation_status_setter P) r sb) ≡ name_of sb
  unfolding update_status_from_last_op last_operation_status_setter
  last_op-name r sb = ground arith

  get_latest-Keeps : Keeps Q (get_latest_kube_object P w)
  unfolding get_latest_kube_object
  get_latest-Keeps = Keeps-wrapping _ _ (Keeps-kube_call _ _ λ n sb h. of_name sb _ (k.got n sb) h)

  after_poll-Keeps : (reply : Reply LastOperationResponse) → Keeps Q (after_poll P w reply)
  unfolding after_poll
  after_poll-Keeps (failure e) = Keeps-bind _ _ (handle_poll_error-Keeps e) (after_handled-Keeps e)
  after_poll-Keeps (answer none) =
      Keeps-bind _ _ (Keeps-wrapping _ _ get_latest-Keeps) (λ _. Keeps-crash)
  after_poll-Keeps (answer (some r)) = Keeps-bind _ _ (Keeps-wrapping _ _ get_latest-Keeps) λ _.
      Keeps-bind _ _ (Keeps-modify _ λ sb h. of_name sb _ (last_op-name r sb) h) (λ _. Keeps-pure _)

  handle_last_operation-Keeps :
      (oid : OriginatingIdentity) → Keeps Q (handle_last_operation_in_progress P w oid)
  unfolding handle_last_operation_in_progress
  handle_last_operation-Keeps oid =
      Keeps-gets-bind _ _
        λ sb. Keeps-bind _ _ (Keeps-lift _) λ req. Keeps-ask-bind _ _ _ λ n. after_poll-Keeps _

  change-Keeps :
      (f : ServiceBinding P → Fallible (ServiceBinding P))
      → ((sb t : ServiceBinding P) → f sb ≡ done t → name_of t ≡ name_of sb)
      → Keeps Q (change P w f)
  unfolding ◌>>=◌
  change-Keeps f same = record {
    at = λ s h. elim (Fallible-cases (f s.obj)) [
      | inl (e, failed) ↦ rw failed h
      | inr (t, changed) ↦ rw changed (of_name s.obj t (same s.obj t changed) h)
    ];
  }

  status-name :
      (resp : GetBindingResponse P.Endpoints P.VolumeMounts) (sb t : ServiceBinding P)
      → update_binding_status_from_response P resp sb ≡ done t
      → name_of t ≡ name_of sb
  status-name resp sb t h =
      let written = update_status-Written P resp sb t h in rw written.same.meta refl

  compare_parameters-Keeps : (creds : Credentials) → Keeps Q (compare_parameters P w creds)
  unfolding compare_parameters
  compare_parameters-Keeps creds = Keeps-gets-bind _ _ λ sb.
      Keeps-bind _ _ (Keeps-lift _) λ differ. Keeps-if differ _ _ (Keeps-raise _) (Keeps-pure _)

  after_renewal-Keeps :
      (creds : Credentials) (a : BindingAction) → Keeps Q (after_renewal P w creds a)
  unfolding after_renewal
  after_renewal-Keeps creds BindingAction.renewal_data = Keeps-pure _
  after_renewal-Keeps creds BindingAction.rotate_binding = Keeps-pure _
  after_renewal-Keeps creds BindingAction.nothing_to_do = compare_parameters-Keeps creds

  conditions-kept : (c : Condition) (sb : ServiceBinding P) → Q sb → Q (set_conditions P c sb)
  unfolding set_conditions
  conditions-kept c sb h = of_name sb (set_conditions P c sb) refl h

  after_get-Keeps :
      (rotate : Bool) (reply : Reply (GetBindingResponse P.Endpoints P.VolumeMounts))
      → Keeps Q (after_get P w rotate reply)
  unfolding after_get observe_response
  after_get-Keeps rotate (failure e) =
      Keeps-if (is_resource_gone e) _ _ (Keeps-pure _) (Keeps-raise _)
  after_get-Keeps rotate (answer none) = Keeps-crash
  after_get-Keeps rotate (answer (some resp)) =
      Keeps-bind _ _ (Keeps-wrapping _ _ (change-Keeps _ (status-name resp))) λ _.
        Keeps-bind _ _ (Keeps-lift _) λ creds.
          Keeps-bind _ _
            (Keeps-wrapping _ _ (handle_renewal_bindings-Keeps P w conditions-kept resp rotate))
            (after_renewal-Keeps creds)

  observe_external-Keeps : (rotate : Bool) → Keeps Q (observe_external P w rotate)
  unfolding observe_external
  observe_external-Keeps rotate =
      Keeps-gets-bind _ _ λ sb.
        Keeps-bind _ _ (Keeps-lift _) λ req. Keeps-ask-bind _ _ _ λ n. after_get-Keeps rotate _

  pub observe_state-Keeps :
      (rotate : Bool) (oid : OriginatingIdentity) → Keeps Q (observe_state P w rotate oid)
  unfolding observe_state observe_operation
  observe_state-Keeps rotate oid = Keeps-gets-bind _ _ λ sb.
      Keeps-if (is_state_in_progress P sb) _ _
        (Keeps-bind _ _ (handle_last_operation-Keeps oid) (λ _. Keeps-pure _))
        (Keeps-if (is_external_name_empty P sb) _ _ (Keeps-pure _) (observe_external-Keeps rotate))
