-- ===== src/Binding/Renewal/Decision.antt =====
-- When a binding is rotated.
use provider_osb.Base.{
  Option-cases, inl, inr, ℕ, Bool, true, ◌<◌, ◌≡◌, ◌≢◌, ◌↔◌, some, arith, eq_iff, length,
}
use provider_osb.Errors.{done}
use provider_osb.Osb.{BindingMetadata, GetBindingResponse}
use provider_osb.Platform.{Platform, World}
use provider_osb.Exec.{Session, ok, ◌>>=◌}
use provider_osb.Exec.Rules.{Fallible-cases}
use provider_osb.Binding.{ServiceBinding}
use provider_osb.Binding.Renewal.{rotate_binding, handle_renewal_bindings}

module _ (P : Platform) (w : World P (ServiceBinding P)) where
  -- The time to renew has passed on the clock, and the time of expiry can be read.
  abbrev pub IsDue : BindingMetadata → ℕ → Type 0
  IsDue m now =
      (m.renew_before ≢ "")
      × ((renew_before : ℕ) × (P.parse_time m.renew_before ≡ done renew_before)
          × (renew_before < now))
      × ((expires_at : ℕ) × (P.parse_time m.expires_at ≡ done expires_at))

  module _ (resp : GetBindingResponse P.Endpoints P.VolumeMounts) (rotate : Bool)
      (s : Session (ServiceBinding P)) where
    abbrev pub ShouldRotate : Type 0
    ShouldRotate =
        (rotate ≡ true)
        × ((m : BindingMetadata) × (resp.metadata ≡ some m) × IsDue m (w.now (length s.calls)))

    rotates-only_if :
        (handle_renewal_bindings P w (some resp) rotate s).0 ≡ ok rotate_binding → ShouldRotate
    unfolding ◌>>=◌ handle_renewal_bindings
    rotates-only_if h = elim (Option-cases resp.metadata) [
      | inl absent ↦ absurd (ground arith)
      | inr (m, present) ↦ elim (Fallible-cases (P.parse_time m.renew_before)) [
        | inl (x, unread) ↦ absurd (ground arith)
        | inr (t, read) ↦ elim (Fallible-cases (P.parse_time m.expires_at)) [
          | inl (x, unread) ↦ absurd (ground arith)
          | inr (u, expiry) ↦ (
            ground arith,
            (
              m,
              present,
              (ground (arith, eq_iff m.renew_before ""), (t, read, ground arith), (u, expiry)),
            ),
          )
        ]
      ]
    ]

    rotates-if :
        ShouldRotate → (handle_renewal_bindings P w (some resp) rotate s).0 ≡ ok rotate_binding
    unfolding ◌>>=◌ handle_renewal_bindings
    rotates-if (on, (m, present, (filled, (t, read, passed), (u, expiry)))) =
        ground (arith, eq_iff m.renew_before "")

    -- A response asks for the rotation of its binding exactly if rotation is switched on, the
    -- metadata has a time to renew, that time is before the clock's, and the time of expiry can be
    -- read, whether or not the binding has expired.
    pub rotates_iff :
        ((handle_renewal_bindings P w (some resp) rotate s).0 ≡ ok rotate_binding) ↔ ShouldRotate
    rotates_iff = (rotates-only_if, rotates-if)
