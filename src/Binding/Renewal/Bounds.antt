-- ===== src/Binding/Renewal/Bounds.antt =====
-- How often the renewal of a binding reads the clock.
use provider_osb.Base.{ℕ, Bool, true, false, Option, none, some, is_empty, ltb}
use provider_osb.Osb.{BindingMetadata, GetBindingResponse}
use provider_osb.Platform.{Platform, World}
use provider_osb.Exec.{pure}
use provider_osb.Exec.AtMost.{
  AtMost, AtMost-pure, AtMost-if, AtMost-modify, AtMost-bind, AtMost-lift_bind, AtMost-ask_bind,
}
use provider_osb.Binding.{ServiceBinding}
use provider_osb.Binding.Renewal.{
  BindingAction, nothing_to_do, mark_binding_if_expired, mark_binding_as_expiring_soon, after_mark,
  renew, handle_metadata, handle_renewal_bindings,
}

module _ (P : Platform) (w : World P (ServiceBinding P)) where
  mark_binding_if_expired-AtMost :
      (expire_at : ℕ) → AtMost 1 (mark_binding_if_expired P w expire_at)
  unfolding mark_binding_if_expired
  mark_binding_if_expired-AtMost expire_at = AtMost-ask_bind 0 _ _ _ λ t.
      AtMost-if 0 (ltb expire_at t) _ _
        (AtMost-bind 0 0 _ _ (AtMost-modify 0 _) (λ _. AtMost-pure 0 _)) (AtMost-pure 0 _)

  after_mark-AtMost :
      (rotate : Bool) (expire_at : ℕ) (expired : Bool)
      → AtMost 0 (after_mark P w rotate expire_at expired)
  unfolding after_mark mark_binding_as_expiring_soon
  after_mark-AtMost true expire_at expired = AtMost-pure 0 _
  after_mark-AtMost false expire_at true = AtMost-pure 0 _
  after_mark-AtMost false expire_at false =
      AtMost-bind 0 0 _ _ (AtMost-modify 0 _) (λ _. AtMost-pure 0 _)

  renew-AtMost : (metadata : BindingMetadata) (rotate : Bool) → AtMost 1 (renew P w metadata rotate)
  unfolding renew
  renew-AtMost metadata rotate = AtMost-lift_bind 1 _ _ λ expire_at_time.
      AtMost-bind 1 0 _ _ (mark_binding_if_expired-AtMost expire_at_time)
        (after_mark-AtMost rotate expire_at_time)

  handle_metadata-AtMost :
      (metadata : BindingMetadata) (rotate : Bool) → AtMost 2 (handle_metadata P w metadata rotate)
  unfolding handle_metadata
  handle_metadata-AtMost metadata rotate =
      AtMost-if 2 (is_empty metadata.renew_before) _ _ (AtMost-pure 2 _) (
        AtMost-lift_bind 2 _ _ λ renew_before_time. AtMost-ask_bind 1 _ _ _ λ t.
          AtMost-if 1 (ltb renew_before_time t) _ _ (renew-AtMost metadata rotate)
            (AtMost-pure 1 _))

  pub handle_renewal_bindings-AtMost :
      (resp : GetBindingResponse P.Endpoints P.VolumeMounts) (rotate : Bool)
      → AtMost 2 (handle_renewal_bindings P w (some resp) rotate)
  unfolding handle_renewal_bindings
  handle_renewal_bindings-AtMost resp rotate = metadata-AtMost resp.metadata
    where
      metadata-AtMost :
          (o : Option BindingMetadata)
          → AtMost {O = ServiceBinding P} {A = BindingAction} 2 (elim o [
            | none ↦ pure nothing_to_do
            | some metadata ↦ handle_metadata P w metadata rotate
          ])
      metadata-AtMost none = AtMost-pure 2 _
      metadata-AtMost (some metadata) = handle_metadata-AtMost metadata rotate
