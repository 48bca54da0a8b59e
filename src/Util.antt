-- ===== src/Util.antt =====
-- internal/controller/util/util.go: what the two kinds of resource share.
pub mod Client
pub mod Kube
pub mod Marshalling
use provider_osb.Base.{
  ℕ, String, Bool, true, false, ◌||◌, Option, none, some, List, [], ◌∷◌, nat_eqb, if◌then◌else◌,
}
use provider_osb.Errors.{
  Error, sentinel, wrap, wrap_at, detail, http, other, UtilError, of_util, Fallible, done, fail,
  ◌>>=◌,
}
use provider_osb.Json.{Fields, end, field, GoMap}
use provider_osb.Osb.{
  LastOperationState, LastOperationResponse, in_progress, succeeded, failed, deleting, unknown,
}
use provider_osb.Platform.{Platform, Condition, available, unavailable}

-- `http.StatusNotFound` is 404 and `http.StatusGone` is 410.
unfoldable pub is_resource_gone : Error → Bool
is_resource_gone (http code) = nat_eqb code 410 || nat_eqb code 404
is_resource_gone (sentinel s) = false
is_resource_gone (wrap s e) = false
is_resource_gone (detail s t) = false
is_resource_gone (wrap_at s t e) = false
is_resource_gone (other t) = false

-- `LastOperationStatusSetter`
pub record LastOperationStatusSetter (O : Type 0) : Type 0 where
  pub set_last_operation_state : LastOperationState → O → O
  pub set_last_operation_description : String → O → O
  pub set_conditions : Condition → O → O

-- The switch of `UpdateStatusFromLastOp`: no case for any other state.
unfoldable pub condition_of_state : LastOperationState → Option Condition
condition_of_state succeeded = some available
condition_of_state in_progress = some unavailable
condition_of_state deleting = some unavailable
condition_of_state failed = some unavailable
condition_of_state (unknown t) = none

abbrev if_some : {A O : Type 0} → (A → O → O) → Option A → O → O
if_some f none o = o
if_some f (some a) o = f a o

-- `UpdateStatusFromLastOp`
unfoldable pub update_status_from_last_op :
    {O : Type 0} → LastOperationStatusSetter O → LastOperationResponse → O → O
unfolding condition_of_state
update_status_from_last_op i resp o = if_some i.set_conditions (condition_of_state resp.state) (
    if_some i.set_last_operation_description resp.description
      (i.set_last_operation_state resp.state o))

-- `HandleAsyncStatusSetter`
pub record HandleAsyncStatusSetter (O : Type 0) : Type 0 where
  pub set_last_operation_state : LastOperationState → O → O
  pub set_last_operation_key : String → O → O

-- `HandleAsyncStatus`
unfoldable pub handle_async_status :
    {O : Type 0} → HandleAsyncStatusSetter O → Option String → O → O
handle_async_status i operation_key o =
    i.set_last_operation_state in_progress (if_some i.set_last_operation_key operation_key o)

-- `map[string][]byte`: `none` is the nil map. The values are JSON texts.
abbrev pub Credentials : Type 0
Credentials = Option (List (String × String))

module _ (P : Platform) where
  -- The loop of `MarshalMapValues` and of `GetCredsFromResponse`, over the entries in some order.
  unfoldable pub marshal_fields : UtilError → Fields → Fallible (List (String × String))
  marshal_fields e end = done []
  marshal_fields e (field k v m) = elim (P.marshal_value v) [
    | done b ↦ marshal_fields e m >>= λ rest. done ((k, b) ∷ rest)
    | fail cause ↦ fail (wrap_at (of_util e) k cause)
  ]

  unfoldable pub marshal_map_values : GoMap → Fallible Credentials
  unfolding marshal_fields
  marshal_map_values none = done (some [])
  marshal_map_values (some m) =
      marshal_fields UtilError.marshal_map_value m >>= λ entries. done (some entries)

  -- `GetCredsFromResponse`, on the credentials of the response.
  unfoldable pub get_creds_from_response : GoMap → Fallible Credentials
  unfolding marshal_fields
  get_creds_from_response none = done (some [])
  get_creds_from_response (some m) =
      marshal_fields UtilError.marshal_credential m >>= λ entries. done (some entries)

  -- `MarshalBindingCredentials`, on the credentials of the response.
  unfoldable pub marshal_binding_credentials : GoMap → Fallible Credentials
  unfolding marshal_map_values
  marshal_binding_credentials none = done none
  marshal_binding_credentials (some m) = marshal_map_values (some m)

  -- `ParseISO8601Time`
  unfoldable pub parse_iso8601_time : String → String → Fallible ℕ
  parse_iso8601_time value name = elim (P.parse_time value) [
    | done t ↦ done t
    | fail cause ↦ fail (wrap_at (of_util UtilError.parse_iso8601_time) name cause)
  ]

  -- `AddFinalizerIfNotExists` and `RemoveFinalizerIfExists`: whether the object changed, and the
  -- metadata afterwards.
  unfoldable pub add_finalizer_if_not_exists : P.ObjectMeta → String → Bool × P.ObjectMeta
  add_finalizer_if_not_exists m f =
      if P.finalizer_exists m f then (false, m) else (true, P.add_finalizer m f)

  unfoldable pub remove_finalizer_if_exists : P.ObjectMeta → String → Bool × P.ObjectMeta
  remove_finalizer_if_exists m f =
      if P.finalizer_exists m f then (true, P.remove_finalizer m f) else (false, m)
