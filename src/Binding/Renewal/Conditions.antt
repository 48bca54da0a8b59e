-- ===== src/Binding/Renewal/Conditions.antt =====
-- The renewal of a binding touches nothing but its conditions.
use provider_osb.Base.{ℕ, Bool, true, false, Option, none, some, is_empty, ltb}
use provider_osb.Osb.{BindingMetadata, GetBindingResponse}
use provider_osb.Platform.{Platform, World, Condition}
use provider_osb.Exec.{pure}
use provider_osb.Exec.Keeps.{
  Keeps, Keeps-pure, Keeps-if, Keeps-modify, Keeps-bind, Keeps-lift, Keeps-ask-bind,
}
use provider_osb.Binding.{ServiceBinding, set_conditions}
use provider_osb.Binding.Renewal.{
  BindingAction, nothing_to_do, mark_binding_if_expired, mark_binding_as_expiring_soon, after_mark,
  renew, handle_metadata, handle_renewal_bindings,
}

module _ (P : Platform) (w : World P (ServiceBinding P)) {Q : ServiceBinding P → Type 0}
    (kept : (c : Condition) (sb : ServiceBinding P) → Q sb → Q (set_conditions P c sb)) where
  mark_binding_if_expired-Keeps : (expire_at : ℕ) → Keeps Q (mark_binding_if_expired P w expire_at)
  unfolding mark_binding_if_expired
  mark_binding_if_expired-Keeps expire_at = Keeps-ask-bind _ _ _ λ n.
      Keeps-if (ltb expire_at (w.now n)) _ _
        (Keeps-bind _ _ (Keeps-modify _ (kept _)) (λ _. Keeps-pure _)) (Keeps-pure _)

  after_mark-Keeps :
      (rotate : Bool) (expire_at : ℕ) (expired : Bool)
      → Keeps Q (after_mark P w rotate expire_at expired)
  unfolding after_mark mark_binding_as_expiring_soon
  after_mark-Keeps true expire_at expired = Keeps-pure _
  after_mark-Keeps false expire_at true = Keeps-pure _
  after_mark-Keeps false expire_at false =
      Keeps-bind _ _ (Keeps-modify _ (kept _)) (λ _. Keeps-pure _)

  renew-Keeps : (metadata : BindingMetadata) (rotate : Bool) → Keeps Q (renew P w metadata rotate)
  unfolding renew
  renew-Keeps metadata rotate = Keeps-bind _ _ (Keeps-lift _) λ expire_at_time.
      Keeps-bind _ _ (mark_binding_if_expired-Keeps expire_at_time)
        (after_mark-Keeps rotate expire_at_time)

  handle_metadata-Keeps :
      (metadata : BindingMetadata) (rotate : Bool) → Keeps Q (handle_metadata P w metadata rotate)
  unfolding handle_metadata
  handle_metadata-Keeps metadata rotate =
      Keeps-if (is_empty metadata.renew_before) _ _ (Keeps-pure _) (
        Keeps-bind _ _ (Keeps-lift _) λ renew_before_time. Keeps-ask-bind _ _ _ λ n.
          Keeps-if (ltb renew_before_time (w.now n)) _ _ (renew-Keeps metadata rotate)
            (Keeps-pure _))

  pub handle_renewal_bindings-Keeps :
      (resp : GetBindingResponse P.Endpoints P.VolumeMounts) (rotate : Bool)
      → Keeps Q (handle_renewal_bindings P w (some resp) rotate)
  unfolding handle_renewal_bindings
  handle_renewal_bindings-Keeps resp rotate = metadata-Keeps resp.metadata
    where
      metadata-Keeps :
          (o : Option BindingMetadata)
          → Keeps {O = ServiceBinding P} {A = BindingAction} Q (elim o [
            | none ↦ pure nothing_to_do
            | some metadata ↦ handle_metadata P w metadata rotate
          ])
      metadata-Keeps none = Keeps-pure _
      metadata-Keeps (some metadata) = handle_metadata-Keeps metadata rotate
