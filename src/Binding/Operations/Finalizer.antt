-- ===== src/Binding/Operations/Finalizer.antt =====
-- The finalizer that keeps a binding while it is unbound asynchronously.
use provider_osb.Base.{ℕ, true, false, ◌≡◌, inl, inr, none, some, arith, length, ◌∷◌, eq_iff}
use provider_osb.Errors.{Error}
use provider_osb.Common.{need_to_create}
use provider_osb.Osb.{OriginatingIdentity, LastOperationResponse, Reply, answer, failure}
use provider_osb.Platform.{Platform, World, Call}
use provider_osb.Platform.Laws.{IsLawful}
use provider_osb.Exec.{Session, ok, ◌>>=◌}
use provider_osb.Exec.Rules.{Fallible-cases}
use provider_osb.Util.Kube.{get_latest_kube_object}
use provider_osb.Binding.{ServiceBinding, async_deletion_finalizer}
use provider_osb.Binding.Requests.{build_binding_last_operation_request}
use provider_osb.Binding.Operations.{un_bind}
use provider_osb.Binding.Operations.Observe.{
  handle_last_operation_in_progress, after_poll, handle_poll_error, after_handled,
}

module _ (P : Platform) (w : World P (ServiceBinding P)) where
  -- `kube.Update` answers with the metadata that was sent.
  abbrev pub KeepsMeta : Type 0
  KeepsMeta = (n : ℕ) (sb : ServiceBinding P) → (w.kube_update n sb).object.meta ≡ sb.meta

  module _ (lawful : IsLawful P) (keeps : KeepsMeta) (oid : OriginatingIdentity)
      (s : Session (ServiceBinding P)) where
    -- If the metadata helpers behave as documented and Kubernetes keeps the metadata that an
    -- update sends, a binding that is unbound asynchronously has the finalizer.
    pub un_bind-holds :
        (un_bind P w oid s).0 ≡ ok true
        → P.finalizer_exists (un_bind P w oid s).1.obj.meta async_deletion_finalizer ≡ true
    unfolding ◌>>=◌ un_bind
    un_bind-holds h = grind (
      arith,
      keeps,
      lawful.exists-add s.obj.meta async_deletion_finalizer async_deletion_finalizer,
      eq_iff async_deletion_finalizer async_deletion_finalizer,
    )

    handle_poll_error-releases :
        (e : Error) (t : Session (ServiceBinding P))
        → (handle_poll_error P w e t).0 ≡ ok (some need_to_create)
        → P.finalizer_exists (handle_poll_error P w e t).1.obj.meta async_deletion_finalizer ≡ false
    unfolding ◌>>=◌ handle_poll_error
    handle_poll_error-releases e t h = grind (
      arith,
      keeps,
      lawful.exists-remove t.obj.meta async_deletion_finalizer async_deletion_finalizer,
      eq_iff async_deletion_finalizer async_deletion_finalizer,
    )

    after_poll-releases :
        (reply : Reply LastOperationResponse) (t : Session (ServiceBinding P))
        → (after_poll P w reply t).0 ≡ ok need_to_create
        → P.finalizer_exists (after_poll P w reply t).1.obj.meta async_deletion_finalizer ≡ false
    unfolding ◌>>=◌ after_poll after_handled get_latest_kube_object
    after_poll-releases (failure e) t h = ground (arith, handle_poll_error-releases e t)
    after_poll-releases (answer none) t h = absurd (ground arith)
    after_poll-releases (answer (some r)) t h = absurd (ground arith)

    -- If the metadata helpers behave as documented and Kubernetes keeps the metadata that an
    -- update sends, a poll of the last operation that asks for the binding to be created, as
    -- it is gone, leaves the binding without the finalizer.
    pub poll-releases :
        (handle_last_operation_in_progress P w oid s).0 ≡ ok need_to_create
        → P.finalizer_exists
            (handle_last_operation_in_progress P w oid s).1.obj.meta
            async_deletion_finalizer
          ≡ false
    unfolding ◌>>=◌ handle_last_operation_in_progress
    poll-releases h = elim (Fallible-cases (build_binding_last_operation_request P s.obj oid)) [
      | inl (e, failed) ↦ absurd (ground arith)
      | inr (req, built) ↦ ground (
        arith,
        after_poll-releases (w.poll_binding_last_operation (length s.calls) req)
            (record s { calls = Call.poll_binding_last_operation req ∷ s.calls }),
      )
    ]
