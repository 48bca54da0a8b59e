-- ===== src/Binding/Renewal.antt =====
-- The renewal of bindings in apis/binding/v1alpha1/servicebinding_methods.go.
pub mod Bounds
pub mod Conditions
pub mod Decision
use provider_osb.Base.{
  ℕ, String, ◌<>◌, Bool, true, false, Option, none, some, is_empty, ltb, if◌then◌else◌,
}
use provider_osb.Errors.{detail, BindingError, of_binding}
use provider_osb.Osb.{BindingMetadata, GetBindingResponse}
use provider_osb.Platform.{Platform, World, Call, unhealthy}
use provider_osb.Exec.{Exec, pure, raise, lift, gets, ask, modify, ◌>>=◌, ◌>>◌}
use provider_osb.Util.{parse_iso8601_time}
use provider_osb.Binding.{ServiceBinding, set_conditions}

-- `BindingAction`
pub data BindingAction : Type 0 where
  renewal_data rotate_binding nothing_to_do : BindingAction

module _ (P : Platform) (w : World P (ServiceBinding P)) where
  abbrev Method : Type 0 → Type 0
  Method A = Exec (ServiceBinding P) A

  -- `time.Now()`
  abbrev pub time_now : Method ℕ
  time_now = ask Call.now w.now

  -- `TimeNow`: the time as a text.
  abbrev pub time_now_text : Method String
  time_now_text = ask Call.now (λ n. P.format_time (w.now n))

  unfoldable pub mark_binding_if_expired : ℕ → Method Bool
  unfolding set_conditions
  mark_binding_if_expired expire_at = time_now >>= λ t.
      if ltb expire_at t
      then (modify (
            set_conditions P
              (unhealthy ("warning: the binding has expired " <> P.format_time expire_at)))
          >> pure true)
      else pure false

  unfoldable pub mark_binding_as_expiring_soon : ℕ → Method (Unit {0})
  unfolding set_conditions
  mark_binding_as_expiring_soon expire_at = modify (
      set_conditions P
        (unhealthy ("warning: the binding will expire soon " <> P.format_time expire_at)))

  -- What follows `MarkBindingIfExpired`.
  after_mark : Bool → ℕ → Bool → Method BindingAction
  unfolding mark_binding_as_expiring_soon
  after_mark true expire_at expired = pure rotate_binding
  after_mark false expire_at true = pure nothing_to_do
  after_mark false expire_at false = mark_binding_as_expiring_soon expire_at >> pure nothing_to_do

  -- The branch for a binding whose time to renew has passed.
  renew : BindingMetadata → Bool → Method BindingAction
  unfolding parse_iso8601_time mark_binding_if_expired after_mark
  renew metadata rotate = do
    expire_at_time ← lift (parse_iso8601_time P metadata.expires_at "expiresAt")
    expired ← mark_binding_if_expired expire_at_time
    after_mark rotate expire_at_time expired

  -- `HandleRenewalBindings`, once the response has metadata.
  handle_metadata : BindingMetadata → Bool → Method BindingAction
  unfolding parse_iso8601_time renew
  handle_metadata metadata rotate =
      if is_empty metadata.renew_before
      then pure renewal_data
      else (lift (parse_iso8601_time P metadata.renew_before "renewBefore") >>= λ renew_before_time.
          time_now >>= λ t.
          if ltb renew_before_time t then renew metadata rotate else pure nothing_to_do)

  unfoldable pub handle_renewal_bindings :
      Option (GetBindingResponse P.Endpoints P.VolumeMounts) → Bool → Method BindingAction
  unfolding handle_metadata
  handle_renewal_bindings none rotate = gets (λ sb. sb) >>= λ sb. raise (
      detail (of_binding BindingError.nil_binding_response)
        (P.get_namespace sb.meta <> "/" <> P.get_name sb.meta))
  handle_renewal_bindings (some resp) rotate = elim resp.metadata [
    | none ↦ pure nothing_to_do
    | some metadata ↦ handle_metadata metadata rotate
  ]
