-- ===== src/Controller/Binding/Unsaved.antt =====
-- The calls of an update of a binding.
use provider_osb.Base.{
  String, Bool-cases, ◌≡◌, ◌⊎◌, inl, inr, refl, none, some, List, ◌∷◌, length, suc,
}
use provider_osb.Exec.Rules.{Fallible-cases, Reply-cases}
use provider_osb.Osb.{RotateBindingRequest}
use provider_osb.Platform.{Platform, World, Call}
use provider_osb.Exec.{Session, ◌>>=◌, ◌>>◌}
use provider_osb.Binding.{ServiceBinding}
use provider_osb.Binding.Requests.{build_rotate_binding_request}
use provider_osb.Binding.Operations.{trigger_rotation, extract_credentials}
use provider_osb.Controller.Binding.{External, update}

module _ (P : Platform) (w : World P (ServiceBinding P)) (c : External)
    (s : Session (ServiceBinding P)) where
  -- A fresh UUID, then perhaps the request for the rotation, then perhaps a reading of the clock.
  abbrev pub OnlyAsks : List (Call (ServiceBinding P)) → Type 0
  OnlyAsks calls =
      (calls ≡ Call.new_uuid ∷ s.calls)
      ⊎ ((r : RotateBindingRequest) × ((calls ≡ Call.rotate_binding r ∷ Call.new_uuid ∷ s.calls)
            ⊎ (calls ≡ Call.now ∷ Call.rotate_binding r ∷ Call.new_uuid ∷ s.calls)))

  -- An update of a binding writes nothing to Kubernetes, whatever the broker answers: it gets a new
  -- UUID, sends at most one request to rotate, and may then read the clock. So the identifier that it
  -- sets is only in the object in memory.
  pub update-OnlyAsks : OnlyAsks (update P w c s).1.calls
  unfolding ◌>>=◌ update trigger_rotation
  update-OnlyAsks =
      let id : String = w.new_uuid (length s.calls) in
      elim (Fallible-cases (build_rotate_binding_request P s.obj c.originating_identity id)) [
        | inl (e, failed) ↦ inl (rw failed refl)
        | inr (r, built) ↦ (elim (Reply-cases (w.rotate_binding (suc (length s.calls)) r)) [
          | inl (e, refused) ↦ inr (r, inl (rw (built, refused) refl))
          | inr (none, reply) ↦ inr (r, inl (rw (built, reply, ◌>>◌) refl))
          | inr (some resp, reply) ↦ elim (Bool-cases resp.async) [
            | inl later ↦ inr (r, inr (rw (built, reply, ◌>>◌, later) refl))
            | inr now ↦ elim (Fallible-cases (extract_credentials P resp.credentials)) [
              | inl (e, unread) ↦ inr (r, inl (rw (built, reply, ◌>>◌, now, unread) refl))
              | inr (creds, read) ↦ inr (r, inl (rw (built, reply, ◌>>◌, now, read) refl))
            ]
          ]
        ])
      ]
