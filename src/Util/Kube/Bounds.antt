-- ===== src/Util/Kube/Bounds.antt =====
-- How many calls the helpers of the Kubernetes client make.
use provider_osb.Base.{String, Bool, arith}
use provider_osb.Platform.{Platform, World}
use provider_osb.Exec.{◌>>=◌}
use provider_osb.Exec.AtMost.{AtMost}
use provider_osb.Util.Kube.{HasMeta, handle_finalizer}

-- A finalizer is written back by one update, or not at all.
pub handle_finalizer-AtMost :
    (P : Platform) {O : Type 0} (w : World P O) (h : HasMeta P O) (finalizer_name : String)
    (finalizer_mod : P.ObjectMeta → String → Bool × P.ObjectMeta)
    → AtMost 1 (handle_finalizer P w h finalizer_name finalizer_mod)
unfolding ◌>>=◌ handle_finalizer
handle_finalizer-AtMost P w h finalizer_name finalizer_mod = record { at = λ s. ground arith }
