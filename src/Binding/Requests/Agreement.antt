-- ===== src/Binding/Requests/Agreement.antt =====
-- What the builders of the requests for one binding agree on.
use provider_osb.Base.{◌≡◌, some, arith}
use provider_osb.Errors.{Fallible, done, fail}
use provider_osb.Osb.{OriginatingIdentity, UnbindRequest, BindingLastOperationRequest}
use provider_osb.Platform.{Platform}
use provider_osb.Binding.{ServiceBinding}
use provider_osb.Binding.Requests.{build_unbind_request, build_binding_last_operation_request}

-- The two requests are about the same binding, in the name of the same user.
pub record SameTarget (r : UnbindRequest) (q : BindingLastOperationRequest) : Type 0 where
  pub instance_id : q.instance_id ≡ r.instance_id
  pub binding_id : q.binding_id ≡ r.binding_id
  pub service_id : q.service_id ≡ some r.service_id
  pub plan_id : q.plan_id ≡ some r.plan_id
  pub originating_identity : q.originating_identity ≡ r.originating_identity

-- Both are built, and are about the same binding, or both are refused with the same error.
abbrev pub Agree : Fallible UnbindRequest → Fallible BindingLastOperationRequest → Type 0
Agree (done r) (done q) = SameTarget r q
Agree (fail e) (fail x) = e ≡ x
Agree _ _ = ⊥

-- The request to unbind a binding and the request to poll its last operation are both built, for the
-- same instance, binding, service, plan and user, or both are refused with the same error: what can be
-- unbound can be polled.
pub unbind-Agree-poll :
    (P : Platform) (sb : ServiceBinding P) (oid : OriginatingIdentity)
    → Agree (build_unbind_request P sb oid) (build_binding_last_operation_request P sb oid)
unfolding build_unbind_request build_binding_last_operation_request
unbind-Agree-poll P sb oid = ground arith
