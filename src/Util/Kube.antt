-- ===== src/Util/Kube.antt =====
-- The calls of the Kubernetes client in internal/controller/util/util.go.
pub mod Bounds
use provider_osb.Base.{String, Bool, true, false}
use provider_osb.Errors.{UtilError, of_util}
use provider_osb.Exec.{Exec, ok, wrapping, kube_call}
use provider_osb.Platform.{Platform, World, Call}

-- `metav1.Object`: the metadata of an object.
pub record HasMeta (P : Platform) (O : Type 0) : Type 0 where
  pub get_meta : O → P.ObjectMeta
  pub set_meta : P.ObjectMeta → O → O

module _ (P : Platform) {O : Type 0} (w : World P O) where
  abbrev pub kube_get : Exec O (Unit {0})
  kube_get = kube_call w.kube_get Call.kube_get

  abbrev pub kube_update : Exec O (Unit {0})
  kube_update = kube_call w.kube_update Call.kube_update

  abbrev pub kube_status_update : Exec O (Unit {0})
  kube_status_update = kube_call w.kube_status_update Call.kube_status_update

  -- `GetLatestKubeObject`: the object returned is the object given, read afresh.
  unfoldable pub get_latest_kube_object : Exec O (Unit {0})
  get_latest_kube_object = wrapping (of_util UtilError.cannot_get_resource) kube_get

  -- `HandleFinalizer`: the object is written back only if the modification says that it changed.
  unfoldable pub handle_finalizer :
      HasMeta P O → String → (P.ObjectMeta → String → Bool × P.ObjectMeta) → Exec O (Unit {0})
  handle_finalizer h finalizer_name finalizer_mod s =
      let (changed, m) = finalizer_mod (h.get_meta s.obj) finalizer_name in
      elim changed [
        | true ↦ kube_update (record s { obj = h.set_meta m s.obj })
        | false ↦ (ok tt, record s { obj = h.set_meta m s.obj })
      ]
