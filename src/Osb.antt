-- ===== src/Osb.antt =====
-- The requests and responses of go-open-service-broker-client that the provider builds and reads:
-- the fields that it uses. A pointer is an `Option`.
use provider_osb.Base.{ℕ, String, Bool, Option}
use provider_osb.Errors.{Error}
use provider_osb.Json.{GoMap}

-- The state of the last operation: the client's constants, or any other text.
pub data LastOperationState : Type 0 where
  in_progress succeeded failed deleting : LastOperationState
  unknown : String → LastOperationState

pub record OriginatingIdentity : Type 0 where
  pub platform : String
  pub value : String

pub record ProvisionRequest : Type 0 where
  pub instance_id : String
  pub service_id : String
  pub plan_id : String
  pub organization_guid : String
  pub space_guid : String
  pub accepts_incomplete : Bool
  pub context : GoMap
  pub parameters : GoMap

pub record UpdateInstanceRequest : Type 0 where
  pub instance_id : String
  pub service_id : String
  pub accepts_incomplete : Bool
  pub originating_identity : OriginatingIdentity
  pub plan_id : Option String
  pub context : GoMap
  pub parameters : GoMap

pub record DeprovisionRequest : Type 0 where
  pub instance_id : String
  pub service_id : String
  pub plan_id : String
  pub accepts_incomplete : Bool
  pub originating_identity : OriginatingIdentity

pub record LastOperationRequest : Type 0 where
  pub instance_id : String
  pub originating_identity : OriginatingIdentity
  pub service_id : Option String
  pub plan_id : Option String
  pub operation_key : Option String

pub record GetInstanceRequest : Type 0 where
  pub instance_id : String
  pub service_id : String
  pub plan_id : String

pub record BindResource : Type 0 where
  pub app_guid : Option String
  pub route : Option String

pub record BindRequest : Type 0 where
  pub binding_id : String
  pub originating_identity : OriginatingIdentity
  pub instance_id : String
  pub accepts_incomplete : Bool
  pub plan_id : String
  pub service_id : String
  pub app_guid : Option String
  pub bind_resource : Option BindResource
  pub context : GoMap
  pub parameters : GoMap

pub record UnbindRequest : Type 0 where
  pub instance_id : String
  pub binding_id : String
  pub accepts_incomplete : Bool
  pub service_id : String
  pub plan_id : String
  pub originating_identity : OriginatingIdentity

pub record RotateBindingRequest : Type 0 where
  pub instance_id : String
  pub binding_id : String
  pub accepts_incomplete : Bool
  pub predecessor_binding_id : String
  pub originating_identity : OriginatingIdentity

pub record GetBindingRequest : Type 0 where
  pub instance_id : String
  pub binding_id : String

pub record BindingLastOperationRequest : Type 0 where
  pub instance_id : String
  pub binding_id : String
  pub service_id : Option String
  pub plan_id : Option String
  pub originating_identity : OriginatingIdentity
  pub operation_key : Option String

-- What `OSBAsyncResponse` shows of the response to a provision or an update.
pub record AsyncResponse : Type 0 where
  pub async : Bool
  pub dashboard_url : Option String
  pub operation_key : Option String

pub record DeprovisionResponse : Type 0 where
  pub async : Bool
  pub operation_key : Option String

pub record UnbindResponse : Type 0 where
  pub async : Bool
  pub operation_key : Option String

pub record LastOperationResponse : Type 0 where
  pub state : LastOperationState
  pub description : Option String

pub record GetInstanceResponse : Type 0 where
  pub plan_id : String
  pub dashboard_url : String
  pub parameters : GoMap

pub record BindingMetadata : Type 0 where
  pub expires_at : String
  pub renew_before : String

-- Endpoints and volume mounts are only passed on.
pub record BindResponse (E V : Type 0) : Type 0 where
  pub async : Bool
  pub operation_key : Option String
  pub credentials : GoMap
  pub endpoints : Option E
  pub volume_mounts : Option V
  pub route_service_url : Option String
  pub syslog_drain_url : Option String
  pub metadata : Option BindingMetadata

pub record GetBindingResponse (E V : Type 0) : Type 0 where
  pub credentials : GoMap
  pub parameters : GoMap
  pub endpoints : Option E
  pub volume_mounts : Option V
  pub route_service_url : Option String
  pub syslog_drain_url : Option String
  pub metadata : Option BindingMetadata

-- `(*A, error)`: a non-nil error, or the pointer, which a client might leave nil.
pub data Reply {ℓ} (A : Type ℓ) : Type ℓ where
  answer : Option A → Reply A
  failure : Error → Reply A

pub record BasicAuthConfig : Type 0 where
  pub username : String
  pub password : String

-- The fields of the client's configuration that the provider sets. A version of the API is given by
-- its label, and the zero version by the empty label.
pub record ClientConfiguration : Type 0 where
  pub url : String
  pub api_version : String
  pub timeout_seconds : ℕ
  pub auth_config : Option BasicAuthConfig
