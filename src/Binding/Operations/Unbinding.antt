-- ===== src/Binding/Operations/Unbinding.antt =====
-- What an asynchronous unbinding leaves in the status of the binding.
use provider_osb.Base.{ℕ, true, false, ◌≡◌, arith}
use provider_osb.Osb.{OriginatingIdentity, in_progress}
use provider_osb.Platform.{Platform, World}
use provider_osb.Exec.{Session, ok, ◌>>=◌}
use provider_osb.Binding.{ServiceBinding, ServiceBindingObservation, async_deletion_finalizer}
use provider_osb.Binding.Operations.{un_bind}

module _ (P : Platform) (w : World P (ServiceBinding P)) (oid : OriginatingIdentity) where
  -- `kube.Update` of an object with a status subresource: the status that was sent is ignored, and
  -- the object takes the status that is stored.
  abbrev pub RestoresStatus : ServiceBindingObservation → Type 0
  RestoresStatus stored =
      (n : ℕ) (sb : ServiceBinding P) → (w.kube_update n sb).object.at_provider ≡ stored

  -- If Kubernetes answers an update with the status that it stores, an asynchronous unbinding that has
  -- to add its finalizer ends with the stored status: that the operation is in progress, and its key,
  -- are lost.
  pub un_bind_loses_operation :
      (stored : ServiceBindingObservation) (s : Session (ServiceBinding P))
      → RestoresStatus stored
      → P.finalizer_exists s.obj.meta async_deletion_finalizer ≡ false
      → (un_bind P w oid s).0 ≡ ok true
      → (un_bind P w oid s).1.obj.at_provider ≡ stored
  unfolding ◌>>=◌ un_bind
  un_bind_loses_operation stored s restores new_finalizer h = grind (arith, restores)

  -- An asynchronous unbinding of a binding that has the finalizer already leaves the state in
  -- progress.
  pub un_bind_keeps_operation :
      (s : Session (ServiceBinding P))
      → P.finalizer_exists s.obj.meta async_deletion_finalizer ≡ true
      → (un_bind P w oid s).0 ≡ ok true
      → (un_bind P w oid s).1.obj.at_provider.last_operation_state ≡ in_progress
  unfolding ◌>>=◌ un_bind
  un_bind_keeps_operation s old_finalizer h = ground arith
