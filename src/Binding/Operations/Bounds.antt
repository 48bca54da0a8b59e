-- ===== src/Binding/Operations/Bounds.antt =====
-- How many calls binding, unbinding and rotation make.
use provider_osb.Base.{String, Bool, Option, none, some, is_empty}
use provider_osb.Json.{GoMap}
use provider_osb.Osb.{OriginatingIdentity, BindResponse, UnbindResponse, Reply, answer, failure}
use provider_osb.Platform.{Platform, World}
use provider_osb.Exec.AtMost.{
  AtMost, AtMost-pure, AtMost-raise, AtMost-crash, AtMost-lift, AtMost-wrapping, AtMost-if,
  AtMost-modify, AtMost-bind, AtMost-gets_bind, AtMost-lift_bind, AtMost-ask_bind,
}
use provider_osb.Util.Kube.Bounds.{handle_finalizer-AtMost}
use provider_osb.Binding.{ServiceBinding, meta_of, async_deletion_finalizer}
use provider_osb.Util.{add_finalizer_if_not_exists}
use provider_osb.Binding.Operations.{
  ensure_binding_uuid, build_bind_request, after_bind, handle_bind_request, bind, after_unbind,
  handle_un_bind_request, un_bind, mark_rotation, after_rotate, trigger_rotation,
}

module _ (P : Platform) (w : World P (ServiceBinding P)) where
  abbrev Bound : Type 0
  Bound = BindResponse P.Endpoints P.VolumeMounts

  ensure_binding_uuid-AtMost : AtMost 1 (ensure_binding_uuid P w)
  unfolding ensure_binding_uuid
  ensure_binding_uuid-AtMost = AtMost-gets_bind 1 _ _ λ id.
      AtMost-if 1 (is_empty id) _ _
        (AtMost-ask_bind 0 _ _ _
          λ new_id. AtMost-bind 0 0 _ _ (AtMost-modify 0 _) (λ _. AtMost-pure 0 new_id))
        (AtMost-pure 1 id)

  build_bind_request-AtMost :
      (oid : OriginatingIdentity) (ctx_map params : GoMap) (disable_async : Bool)
      → AtMost 1 (build_bind_request P w oid ctx_map params disable_async)
  unfolding build_bind_request
  build_bind_request-AtMost oid ctx_map params disable_async = AtMost-gets_bind 1 _ _ λ sb.
      AtMost-lift_bind 1 _ _
        λ _. AtMost-bind 1 0 _ _ ensure_binding_uuid-AtMost (λ _. AtMost-pure 0 _)

  after_bind-AtMost : (reply : Reply Bound) → AtMost 0 (after_bind P w reply)
  unfolding after_bind
  after_bind-AtMost (failure e) = AtMost-raise 0 _
  after_bind-AtMost (answer none) = AtMost-raise 0 _
  after_bind-AtMost (answer (some resp)) =
      AtMost-if 0 resp.async _ _ (AtMost-bind 0 0 _ _ (AtMost-modify 0 _) (λ _. AtMost-pure 0 _))
        (AtMost-pure 0 _)

  pub bind-AtMost :
      (oid : OriginatingIdentity) (disable_async : Bool) → AtMost 2 (bind P w oid disable_async)
  unfolding bind handle_bind_request
  bind-AtMost oid disable_async = AtMost-gets_bind 2 _ _ λ sb. AtMost-lift_bind 2 _ _ λ specs.
      AtMost-bind 1 1 _ _ (AtMost-wrapping 1 _ _ (build_bind_request-AtMost oid _ _ disable_async))
        (λ req. AtMost-ask_bind 0 _ _ _ after_bind-AtMost)

  after_unbind-AtMost : (reply : Reply UnbindResponse) → AtMost 1 (after_unbind P w reply)
  unfolding after_unbind
  after_unbind-AtMost (failure e) = AtMost-raise 1 _
  after_unbind-AtMost (answer none) = AtMost-raise 1 _
  after_unbind-AtMost (answer (some resp)) =
      AtMost-if 1 resp.async _ _
        (AtMost-bind 0 1 _ _ (AtMost-modify 0 _) (λ _.
          AtMost-bind 1 0 _ _
            (AtMost-wrapping 1 _ _ (
              handle_finalizer-AtMost P w (meta_of P) async_deletion_finalizer
                (add_finalizer_if_not_exists P)))
            (λ _. AtMost-pure 0 _)))
        (AtMost-pure 1 _)

  pub un_bind-AtMost : (oid : OriginatingIdentity) → AtMost 2 (un_bind P w oid)
  unfolding un_bind handle_un_bind_request
  un_bind-AtMost oid = AtMost-gets_bind 2 _ _ λ sb.
      AtMost-lift_bind 2 _ _
        λ req. AtMost-wrapping 2 _ _ (AtMost-ask_bind 1 _ _ _ after_unbind-AtMost)

  mark_rotation-AtMost : (key : Option String) → AtMost 1 (mark_rotation P w key)
  unfolding mark_rotation
  mark_rotation-AtMost key = AtMost-bind 0 1 _ _ (AtMost-modify 0 _) λ _.
      AtMost-ask_bind 0 _ _ _ λ t. AtMost-bind 0 0 _ _ (AtMost-modify 0 _) (λ _. AtMost-pure 0 _)

  after_rotate-AtMost :
      (new_id : String) (reply : Reply Bound) → AtMost 1 (after_rotate P w new_id reply)
  unfolding after_rotate
  after_rotate-AtMost new_id (failure e) = AtMost-raise 1 _
  after_rotate-AtMost new_id (answer none) =
      AtMost-bind 0 1 _ _ (AtMost-modify 0 _) (λ _. AtMost-crash 1)
  after_rotate-AtMost new_id (answer (some r)) =
      AtMost-bind 0 1 _ _ (AtMost-modify 0 _)
        (λ _. AtMost-if 1 r.async _ _ (mark_rotation-AtMost r.operation_key) (AtMost-lift 1 _))

  pub trigger_rotation-AtMost : (oid : OriginatingIdentity) → AtMost 3 (trigger_rotation P w oid)
  unfolding trigger_rotation
  trigger_rotation-AtMost oid = AtMost-ask_bind 2 _ _ _ λ new_id.
      AtMost-gets_bind 2 _ _
        λ sb. AtMost-lift_bind 2 _ _ λ req. AtMost-ask_bind 1 _ _ _ (after_rotate-AtMost new_id)
