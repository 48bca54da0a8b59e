-- ===== src/Errors/OfUtil.antt =====
-- The error variables of internal/controller/util/util.go, in the order of its `var` block,
-- and the text that each is made with.
use provider_osb.Base.{String}

pub data UtilError : Type 0 where
  cannot_decode_basic_auth : UtilError
  cannot_get_resource : UtilError
  unsupported_provider_type : UtilError
  marshal_credential : UtilError
  marshal_map_value : UtilError
  parse_iso8601_time : UtilError
  no_provider_config_reference : UtilError
  cannot_get_provider_config : UtilError
  cannot_get_cluster_provider_config : UtilError
  unknown_provider_config_kind : UtilError
  base64_string_cannot_be_empty : UtilError

-- The text given to `errors.New`.
unfoldable pub util_message : UtilError → String
util_message UtilError.cannot_decode_basic_auth = "cannot decode string into basic auth struct"
util_message UtilError.cannot_get_resource = "cannot get latest version of resource"
util_message UtilError.unsupported_provider_type = "unsupported provider config type"
util_message UtilError.marshal_credential = "failed to marshal credential from response"
util_message UtilError.marshal_map_value = "cannot marshal map value"
util_message UtilError.parse_iso8601_time = "cannot parse ISO8601 time"
util_message UtilError.no_provider_config_reference = "object has no provider config reference"
util_message UtilError.cannot_get_provider_config = "cannot get provider config"
util_message UtilError.cannot_get_cluster_provider_config = "cannot get cluster provider config"
util_message UtilError.unknown_provider_config_kind = "unknown provider config kind"
util_message UtilError.base64_string_cannot_be_empty = "base64 string cannot be empty"
