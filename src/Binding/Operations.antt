-- ===== src/Binding/Operations.antt =====
-- Binding, unbinding and rotation in apis/binding/v1alpha1/servicebinding_methods.go.
pub mod Bounds
pub mod Observe
pub mod Finalizer
pub mod Identity
pub mod Naming
pub mod Outcomes
pub mod Rotation
pub mod Unbinding
use provider_osb.Base.{
  String, Bool, true, false, not, Option, none, some, List, [], ◌∷◌, is_empty, if◌then◌else◌,
}
use provider_osb.Errors.{
  wrap, wrap_at, detail, BindingError, of_binding, Fallible, done, fail, ◌>>=◌ as ◌and_then◌,
}
use provider_osb.Json.{Fields, end, field, GoMap}
use provider_osb.Osb.{
  OriginatingIdentity, BindRequest, BindResponse, UnbindRequest, UnbindResponse, Reply, answer,
  failure,
}
use provider_osb.Platform.{Platform, World, Call}
use provider_osb.Exec.{Exec, pure, raise, crash, lift, gets, ask, modify, wrapping, ◌>>=◌, ◌>>◌}
use provider_osb.Util.{Credentials, handle_async_status, add_finalizer_if_not_exists}
use provider_osb.Util.Kube.{handle_finalizer}
use provider_osb.Binding.{
  ServiceBinding, wrap_failure, meta_of, async_deletion_finalizer, handle_async_status_setter,
  get_external_name, set_external_name, convert_specs_data,
}
use provider_osb.Binding.Requests.{
  validate_inputs, add_bind_resource, add_context_and_params, build_unbind_request,
  build_rotate_binding_request,
}
use provider_osb.Binding.Renewal.{time_now_text}

-- The loop of `extractCredentials`, over the entries in some order.
module _ (P : Platform) where
  unfoldable pub extract_fields : Fields → Fallible (List (String × String))
  extract_fields end = done []
  extract_fields (field k v m) = elim (P.marshal_value v) [
    | done b ↦ extract_fields m and_then λ rest. done ((k, b) ∷ rest)
    | fail cause ↦ fail (wrap_at (of_binding BindingError.failed_to_marshal_credential) k cause)
  ]

  unfoldable pub extract_credentials : GoMap → Fallible Credentials
  unfolding extract_fields
  extract_credentials none = done (some [])
  extract_credentials (some m) = extract_fields m and_then λ entries. done (some entries)

module _ (P : Platform) (w : World P (ServiceBinding P)) where
  abbrev Method : Type 0 → Type 0
  Method A = Exec (ServiceBinding P) A

  abbrev Bound : Type 0
  Bound = BindResponse P.Endpoints P.VolumeMounts

  -- `uuid.NewUUID()`
  abbrev pub new_uuid : Method String
  new_uuid = ask Call.new_uuid w.new_uuid

  unfoldable pub ensure_binding_uuid : Method String
  unfolding get_external_name set_external_name
  ensure_binding_uuid = gets (get_external_name P) >>= λ id.
      if is_empty id
      then (new_uuid >>= λ new_id. modify (set_external_name P new_id) >> pure new_id)
      else pure id

  -- The literal of `buildBindRequest`.
  bind_request : ServiceBinding P → OriginatingIdentity → Bool → String → BindRequest
  bind_request sb oid disable_async binding_id = record {
    binding_id = binding_id;
    originating_identity = oid;
    instance_id = sb.for_provider.instance_id;
    accepts_incomplete = not disable_async;
    plan_id = sb.for_provider.plan_id;
    service_id = sb.for_provider.service_id;
    app_guid = none;
    bind_resource = none;
    context = none;
    parameters = none;
  }

  unfoldable pub build_bind_request :
      OriginatingIdentity → GoMap → GoMap → Bool → Method BindRequest
  unfolding validate_inputs ensure_binding_uuid bind_request add_bind_resource
      add_context_and_params
  build_bind_request oid ctx_map params disable_async = do
    sb ← gets (λ o. o)
    lift (validate_inputs sb.for_provider oid)
    binding_id ← ensure_binding_uuid
    pure (
        add_context_and_params ctx_map params
          (add_bind_resource P sb (bind_request sb oid disable_async binding_id)))

  -- `handleBindRequest`, once the broker has replied. An asynchronous binding has no response yet.
  after_bind : Reply Bound → Method (Option Bound × Bool)
  unfolding handle_async_status handle_async_status_setter
  after_bind (failure e) = raise (wrap (of_binding BindingError.osb_bind_request_failed) e)
  after_bind (answer none) = raise (detail (of_binding BindingError.osb_bindong_id_is_nil) "<nil>")
  after_bind (answer (some resp)) =
      if resp.async
      then (modify (handle_async_status (handle_async_status_setter P) resp.operation_key)
          >> pure (none, true))
      else pure (some resp, false)

  unfoldable pub handle_bind_request : BindRequest → Method (Option Bound × Bool)
  unfolding after_bind
  handle_bind_request req = ask (Call.bind req) (λ n. w.bind n req) >>= after_bind

  unfoldable pub bind : OriginatingIdentity → Bool → Method (Option Bound × Bool)
  bind oid disable_async = do
    sb ← gets (λ o. o)
    specs ← lift (wrap_failure BindingError.convert_binding_spec_failed (convert_specs_data P sb))
    req ←
        wrapping (of_binding BindingError.failed_to_build_bind_request)
          (build_bind_request oid specs.0 specs.1 disable_async)
    handle_bind_request req

  -- `handleUnBindRequest`, once the broker has replied.
  after_unbind : Reply UnbindResponse → Method Bool
  unfolding handle_async_status handle_async_status_setter handle_finalizer
      add_finalizer_if_not_exists
  after_unbind (failure e) = raise (wrap (of_binding BindingError.osb_unbind_request_failed) e)
  after_unbind (answer none) =
      raise (detail (of_binding BindingError.osb_unbind_nil_response) "<nil>")
  after_unbind (answer (some resp)) =
      if resp.async
      then (modify (handle_async_status (handle_async_status_setter P) resp.operation_key)
          >> (wrapping (of_binding BindingError.add_async_deletion_finalizer) (
                handle_finalizer P w (meta_of P) async_deletion_finalizer
                  (add_finalizer_if_not_exists P))
              >> pure true))
      else pure false

  unfoldable pub handle_un_bind_request : UnbindRequest → Method Bool
  unfolding after_unbind
  handle_un_bind_request req = ask (Call.unbind req) (λ n. w.unbind n req) >>= after_unbind

  unfoldable pub un_bind : OriginatingIdentity → Method Bool
  unfolding handle_un_bind_request
  un_bind oid = do
    sb ← gets (λ o. o)
    req ←
        lift
          (wrap_failure BindingError.failed_to_build_unbind_request (build_unbind_request P sb oid))
    wrapping (of_binding BindingError.failed_to_handle_bind_request) (handle_un_bind_request req)

  -- The asynchronous end of `TriggerRotation`: `TimeNow` and an empty description.
  mark_rotation : Option String → Method Credentials
  unfolding handle_async_status handle_async_status_setter
  mark_rotation operation_key = do
    modify (handle_async_status (handle_async_status_setter P) operation_key)
    text ← time_now_text P w
    modify (λ sb. record sb {
      at_provider = record sb.at_provider {
        last_operation_polled_time = text;
        last_operation_description = "";
      };
    })
    pure none

  after_rotate : String → Reply Bound → Method Credentials
  unfolding set_external_name extract_credentials mark_rotation
  after_rotate new_id (failure e) =
      raise (wrap (of_binding BindingError.failed_request_osb_rotate_binding) e)
  after_rotate new_id (answer resp) = modify (set_external_name P new_id) >> elim resp [
    | none ↦ crash
    | some r ↦
        if r.async
        then mark_rotation r.operation_key
        else lift (extract_credentials P r.credentials)
  ]

  unfoldable pub trigger_rotation : OriginatingIdentity → Method Credentials
  unfolding after_rotate
  trigger_rotation oid = do
    new_id ← new_uuid
    sb ← gets (λ o. o)
    req ← lift (
        wrap_failure BindingError.failed_to_build_rotate_binding_request
          (build_rotate_binding_request P sb oid new_id))
    reply ← ask (Call.rotate_binding req) (λ n. w.rotate_binding n req)
    after_rotate new_id reply
