-- ===== src/Controller/Binding/Deletion.antt =====
-- The life of a binding that is deleted: `Delete`, and the observation that follows it.
use provider_osb.Base.{
  ◌∙◌, Bool-cases, inl, inr, length, ◌∷◌, ℕ, String, true, false, ◌≡◌, none, some, arith, refl,
}
use provider_osb.Errors.{BindingError, of_binding, wrap, Error, http, done, fail}
use provider_osb.Osb.{UnbindRequest, BindingLastOperationRequest, answer, failure}
use provider_osb.Platform.{Platform, World, Call, Condition}
use provider_osb.Exec.Rules.{Fallible-cases}
use provider_osb.Exec.{kube_call, ◌>>◌, err, Session, ok, ◌>>=◌}
use provider_osb.Util.{
  add_finalizer_if_not_exists, handle_async_status, is_resource_gone, remove_finalizer_if_exists,
}
use provider_osb.Util.Kube.{handle_finalizer}
use provider_osb.Binding.{
  meta_of, set_last_operation_state, set_last_operation_key, set_conditions,
  handle_async_status_setter, ServiceBinding, async_deletion_finalizer, is_state_in_progress,
}
use provider_osb.Binding.Requests.{build_unbind_request, build_binding_last_operation_request}
use provider_osb.Binding.Requests.Agreement.{unbind-Agree-poll}
use provider_osb.Binding.Operations.{un_bind}
use provider_osb.Binding.Operations.Observe.{
  after_handled, observe_state, observe_operation, handle_last_operation_in_progress,
  handle_poll_error,
}
use provider_osb.Common.{need_to_create}
use provider_osb.Controller.{ExternalDelete, no_observation}
use provider_osb.Controller.Binding.{External, observe, delete}

-- The broker unbinds asynchronously, and then no longer knows the binding; Kubernetes accepts an update
-- and gives the object back as it is.
pub record UnbindsLater {P : Platform} (w : World P (ServiceBinding P)) (key : String)
    : Type 0 where
  pub accepted :
      (n : ℕ) (r : UnbindRequest)
      → w.unbind n r ≡ answer (some (record { async = true; operation_key = some key }))
  pub gone :
      (n : ℕ) (r : BindingLastOperationRequest)
      → w.poll_binding_last_operation n r ≡ failure (http 410)
  pub updated :
      (n : ℕ) (sb : ServiceBinding P) → w.kube_update n sb ≡ record { error = none; object = sb }

module _ (P : Platform) (w : World P (ServiceBinding P)) (c : External) (key : String)
    (later : UnbindsLater w key) where
  open c use {originating_identity as oid}

  -- The session after an asynchronous unbinding of a binding that has its finalizer.
  abbrev unbound : UnbindRequest → Session (ServiceBinding P) → Session (ServiceBinding P)
  unbound r s = record {
    obj = handle_async_status (handle_async_status_setter P) (some key) s.obj;
    calls = Call.unbind r ∷ s.calls;
  }

  not_added :
      (m : P.ObjectMeta)
      → P.finalizer_exists m async_deletion_finalizer ≡ true
      → add_finalizer_if_not_exists P m async_deletion_finalizer ≡ (false, m)
  unfolding add_finalizer_if_not_exists
  not_added m held = rw held

  finalizer_kept :
      (t : Session (ServiceBinding P))
      → P.finalizer_exists t.obj.meta async_deletion_finalizer ≡ true
      → handle_finalizer P w (meta_of P) async_deletion_finalizer (add_finalizer_if_not_exists P) t
        ≡ (ok tt, t)
  unfolding handle_finalizer
  finalizer_kept t held = let same = not_added t.obj.meta held in rw (same, handle_finalizer, same)

  finalizer_released :
      (t : Session (ServiceBinding P))
      → (handle_finalizer P w
          (meta_of P)
          async_deletion_finalizer
          (remove_finalizer_if_exists P)
          t).0
        ≡ ok tt
  unfolding handle_finalizer remove_finalizer_if_exists kube_call
  finalizer_released t =
      elim (Bool-cases (P.finalizer_exists t.obj.meta async_deletion_finalizer)) [
        | inl held ↦ rw (held, handle_finalizer, remove_finalizer_if_exists, later.updated)
        | inr free ↦ rw (free, handle_finalizer, remove_finalizer_if_exists)
      ]

  un_bind_lem :
      (s : Session (ServiceBinding P)) (r : UnbindRequest)
      → P.finalizer_exists s.obj.meta async_deletion_finalizer ≡ true
      → build_unbind_request P s.obj oid ≡ done r
      → un_bind P w oid s ≡ (ok true, unbound r s)
  unfolding ◌>>=◌ un_bind handle_async_status handle_async_status_setter set_last_operation_state
      set_last_operation_key
  un_bind_lem s r held built =
      let kept = finalizer_kept (unbound r s) held in
      rw (built, later.accepted (length s.calls) r, kept, ◌>>◌)

  refusing :
      (s : Session (ServiceBinding P)) (e : Error)
      → build_unbind_request P s.obj oid ≡ fail e
      → (un_bind P w oid s).0
        ≡ err (wrap (of_binding BindingError.failed_to_build_unbind_request) e)
  unfolding ◌>>=◌ un_bind
  refusing s e refused = rw refused

  -- The object when `UnBind` is called.
  abbrev marked : Session (ServiceBinding P) → Session (ServiceBinding P)
  marked s = record s { obj = set_conditions P Condition.deleting s.obj }

  delete_lem :
      (s : Session (ServiceBinding P)) (d : ExternalDelete)
      → P.finalizer_exists s.obj.meta async_deletion_finalizer ≡ true
      → (delete P w c s).0 ≡ ok d
      → (r : UnbindRequest) × (build_unbind_request P (marked s).obj oid ≡ done r)
        × ((delete P w c s).1 ≡ unbound r (marked s))
  unfolding ◌>>=◌ delete set_conditions
  delete_lem s d held h = elim (Fallible-cases (build_unbind_request P (marked s).obj oid)) [
    | inl (e, refused) ↦ absurd (ground (arith, refusing (marked s) e refused))
    | inr (r, built) ↦ (r, built, rw (un_bind_lem (marked s) r held built))
  ]

  handled :
      (t : Session (ServiceBinding P))
      → P.was_deleted t.obj.meta ≡ true
      → (handle_poll_error P w (http 410) t).0 ≡ ok (some need_to_create)
  unfolding ◌>>=◌ handle_poll_error is_resource_gone
  handled t deleted = let released = finalizer_released t in rw (deleted, ◌>>◌, released)

  -- A poll that the broker refuses, as the binding is gone.
  poll_lem :
      (t : Session (ServiceBinding P)) (q : BindingLastOperationRequest)
      → P.was_deleted t.obj.meta ≡ true
      → build_binding_last_operation_request P t.obj oid ≡ done q
      → (handle_last_operation_in_progress P w oid t).0 ≡ ok need_to_create
  unfolding ◌>>=◌ handle_last_operation_in_progress after_handled
  poll_lem t q deleted built =
      let gone = later.gone (length t.calls) q in
      let known =
        handled (record t { calls = Call.poll_binding_last_operation q ∷ t.calls }) deleted in
      rw (built, gone, known)

  observe_lem :
      (t : Session (ServiceBinding P)) (q : BindingLastOperationRequest)
      → P.was_deleted t.obj.meta ≡ true
      → is_state_in_progress P t.obj ≡ true
      → build_binding_last_operation_request P t.obj oid ≡ done q
      → (observe P w c t).0 ≡ ok no_observation
  unfolding ◌>>=◌ observe observe_state observe_operation is_state_in_progress
  observe_lem t q deleted waiting built =
      let polled = poll_lem t q deleted built in rw (waiting, polled)

  -- What can be unbound can be polled afterwards.
  poll_built :
      (sb : ServiceBinding P) (r : UnbindRequest)
      → build_unbind_request P sb oid ≡ done r
      → (q : BindingLastOperationRequest) × (build_binding_last_operation_request P sb oid ≡ done q)
  poll_built sb r built = elim (Fallible-cases (build_binding_last_operation_request P sb oid)) [
    | inl (e, refused) ↦ absurd (rw (built, refused) at (unbind-Agree-poll P sb oid))
    | inr found ↦ found
  ]

  same_target :
      (s : Session (ServiceBinding P)) (r : UnbindRequest)
      → build_unbind_request P (unbound r s).obj oid ≡ build_unbind_request P s.obj oid
  unfolding build_unbind_request handle_async_status handle_async_status_setter
      set_last_operation_state set_last_operation_key
  same_target s r = refl

  unbound_meta :
      (s : Session (ServiceBinding P)) (r : UnbindRequest) → (unbound r s).obj.meta ≡ s.obj.meta
  unfolding handle_async_status handle_async_status_setter set_last_operation_state
      set_last_operation_key
  unbound_meta s r = refl

  unbound_waits :
      (s : Session (ServiceBinding P)) (r : UnbindRequest)
      → is_state_in_progress P (unbound r s).obj ≡ true
  unfolding is_state_in_progress handle_async_status handle_async_status_setter
      set_last_operation_state set_last_operation_key
  unbound_waits s r = refl

  -- If the broker unbinds asynchronously and then no longer knows the binding, and Kubernetes accepts
  -- an update and gives the object back as it is, then a deletion that succeeds, of a binding that
  -- Kubernetes says is to be deleted and that has its finalizer already, is complete at the next
  -- observation: it reports that the resource does not exist.
  pub binding_delete-completes :
      (s : Session (ServiceBinding P)) (d : ExternalDelete)
      → P.was_deleted s.obj.meta ≡ true
      → P.finalizer_exists s.obj.meta async_deletion_finalizer ≡ true
      → (delete P w c s).0 ≡ ok d
      → (observe P w c (delete P w c s).1).0 ≡ ok no_observation
  unfolding set_conditions
  binding_delete-completes s d deleted held h =
      let (r, built, after) = delete_lem s d held h in
      let (q, poll) = poll_built (unbound r (marked s)).obj r (same_target (marked s) r ∙ built) in
      rw after (
        observe_lem (unbound r (marked s)) q (rw (unbound_meta (marked s) r) deleted)
          (unbound_waits (marked s) r) poll)
