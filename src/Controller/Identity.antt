-- ===== src/Controller/Identity.antt =====
-- The originating identity that a connection makes, and the requests that carry it.
use provider_osb.Base.{String, Bool, ◌≡◌, ◌≢◌, inl, inr, arith, eq_iff}
use provider_osb.Errors.{
  sentinel, Fallible, done, fail, BindingError, InstanceError, of_binding, of_instance,
}
use provider_osb.Osb.{OriginatingIdentity}
use provider_osb.Platform.{Platform, World}
use provider_osb.Platform.Laws.{WritesIdentity}
use provider_osb.Exec.{Session}
use provider_osb.Exec.Rules.{Fallible-cases}
use provider_osb.Exec.Inversion.{Succeeds}
use provider_osb.Common.{KubernetesOsbOriginatingIdentityValue}
use provider_osb.Util.Client.{make_originating_identity_from_value}
use provider_osb.Binding.{ServiceBinding}
use provider_osb.Binding.Requests.{
  validate_inputs, build_rotate_binding_request, build_unbind_request,
  build_binding_last_operation_request,
}
use provider_osb.Instance.{ServiceInstance}
use provider_osb.Instance.Requests.{
  build_update_instance_request, build_poll_last_operation_request, build_deprovision_request,
}
use provider_osb.Controller.Binding.Connect as BindingConnect
use provider_osb.Controller.Binding.Connect.Exact as BindingExact
use provider_osb.Controller.Instance.Connect as InstanceConnect
use provider_osb.Controller.Instance.Connect.Exact as InstanceExact

-- Neither part is empty.
IsFilled : OriginatingIdentity → Type 0
IsFilled oid = (oid.platform ≢ "") × (oid.value ≢ "")

make-IsFilled :
    (P : Platform) (val : KubernetesOsbOriginatingIdentityValue) (oid : OriginatingIdentity)
    → WritesIdentity P
    → make_originating_identity_from_value P val ≡ done oid
    → IsFilled oid
unfolding make_originating_identity_from_value IsFilled
make-IsFilled P val oid writes made = elim (Fallible-cases (P.marshal_identity val)) [
  | inl (e, failed) ↦ absurd (ground arith)
  | inr (t, written) ↦
      (ground (arith, eq_iff "kubernetes" ""), ground (arith, writes.filled val t written))
]

-- The error is not that a part of the identity is empty.
abbrev pub BlamesNoIdentity : {A : Type 0} → Fallible A → Type 0
BlamesNoIdentity m =
    (m ≢ fail (sentinel (of_binding BindingError.oid_platform_is_empty)))
    × (m ≢ fail (sentinel (of_binding BindingError.oid_value_is_empty)))
    × (m ≢ fail (sentinel (of_instance InstanceError.oid_platform_is_empty)))
    × (m ≢ fail (sentinel (of_instance InstanceError.oid_value_is_empty)))

module _ (P : Platform) (oid : OriginatingIdentity) where
  -- Every request for a binding that carries the identity.
  abbrev pub BindingRequestsAccept : ServiceBinding P → Type 0
  BindingRequestsAccept sb =
      BlamesNoIdentity (validate_inputs sb.for_provider oid)
      × ((uuid : String) → BlamesNoIdentity (build_rotate_binding_request P sb oid uuid))
      × BlamesNoIdentity (build_unbind_request P sb oid)
      × BlamesNoIdentity (build_binding_last_operation_request P sb oid)

  validate_inputs-accepts :
      (sb : ServiceBinding P)
      → IsFilled oid
      → BlamesNoIdentity (validate_inputs sb.for_provider oid)
  unfolding validate_inputs IsFilled
  validate_inputs-accepts sb h = ground (arith, eq_iff oid.platform "", eq_iff oid.value "")

  rotate-accepts :
      (sb : ServiceBinding P) (uuid : String)
      → IsFilled oid
      → BlamesNoIdentity (build_rotate_binding_request P sb oid uuid)
  unfolding build_rotate_binding_request IsFilled
  rotate-accepts sb uuid h = ground (arith, eq_iff oid.platform "", eq_iff oid.value "")

  unbind-accepts :
      (sb : ServiceBinding P) → IsFilled oid → BlamesNoIdentity (build_unbind_request P sb oid)
  unfolding build_unbind_request IsFilled
  unbind-accepts sb h = ground (arith, eq_iff oid.platform "", eq_iff oid.value "")

  poll_binding-accepts :
      (sb : ServiceBinding P)
      → IsFilled oid
      → BlamesNoIdentity (build_binding_last_operation_request P sb oid)
  unfolding build_binding_last_operation_request IsFilled
  poll_binding-accepts sb h = ground (arith, eq_iff oid.platform "", eq_iff oid.value "")

  -- Every request for an instance that carries the identity.
  abbrev pub InstanceRequestsAccept : ServiceInstance P → Type 0
  InstanceRequestsAccept si =
      ((disable_async : Bool)
        → BlamesNoIdentity (build_update_instance_request P si oid disable_async))
      × ((disable_async : Bool)
          → BlamesNoIdentity (build_deprovision_request P si oid disable_async))
      × BlamesNoIdentity (build_poll_last_operation_request P si oid)

  update-accepts :
      (si : ServiceInstance P) (disable_async : Bool)
      → IsFilled oid
      → BlamesNoIdentity (build_update_instance_request P si oid disable_async)
  unfolding build_update_instance_request IsFilled
  update-accepts si disable_async h = ground (arith, eq_iff oid.platform "", eq_iff oid.value "")

  deprovision-accepts :
      (si : ServiceInstance P) (disable_async : Bool)
      → IsFilled oid
      → BlamesNoIdentity (build_deprovision_request P si oid disable_async)
  unfolding build_deprovision_request IsFilled
  deprovision-accepts si disable_async h =
      ground (arith, eq_iff oid.platform "", eq_iff oid.value "")

  poll-accepts :
      (si : ServiceInstance P)
      → IsFilled oid
      → BlamesNoIdentity (build_poll_last_operation_request P si oid)
  unfolding build_poll_last_operation_request IsFilled
  poll-accepts si h = ground (arith, eq_iff oid.platform "", eq_iff oid.value "")

-- If the JSON text of an identity is not empty, no request that the controller of a binding builds
-- after it was connected is refused for its originating identity, whatever the binding.
pub connect_binding-accepts :
    (P : Platform) (w : World P (ServiceBinding P)) (c : BindingConnect.Connector)
    (s : Session (ServiceBinding P)) (conn : BindingConnect.Connected P)
    (t : Session (ServiceBinding P)) (sb : ServiceBinding P)
    → WritesIdentity P
    → Succeeds (BindingConnect.connect P w c) s conn t
    → BindingRequestsAccept P conn.external.originating_identity sb
connect_binding-accepts P w c s conn t sb writes h =
    let oid : OriginatingIdentity = conn.external.originating_identity in
    let filled : IsFilled oid =
      make-IsFilled P c.originating_identity_value oid writes
        (BindingExact.connect_binding-IsConnected P w c s conn t h).identity in
    (
      validate_inputs-accepts P oid sb filled,
      (λ uuid. rotate-accepts P oid sb uuid filled),
      unbind-accepts P oid sb filled,
      poll_binding-accepts P oid sb filled,
    )

-- If the JSON text of an identity is not empty, no request that the controller of an instance builds
-- after it was connected is refused for its originating identity, whatever the instance.
pub connect_instance-accepts :
    (P : Platform) (w : World P (ServiceInstance P)) (c : InstanceConnect.Connector)
    (s : Session (ServiceInstance P)) (conn : InstanceConnect.Connected P)
    (t : Session (ServiceInstance P)) (si : ServiceInstance P)
    → WritesIdentity P
    → Succeeds (InstanceConnect.connect P w c) s conn t
    → InstanceRequestsAccept P conn.external.originating_identity si
connect_instance-accepts P w c s conn t si writes h =
    let oid : OriginatingIdentity = conn.external.originating_identity in
    let filled : IsFilled oid =
      make-IsFilled P c.originating_identity_value oid writes
        (InstanceExact.connect_instance-IsConnected P w c s conn t h).identity in
    (
      (λ disable_async. update-accepts P oid si disable_async filled),
      (λ disable_async. deprovision-accepts P oid si disable_async filled),
      poll-accepts P oid si filled,
    )
