-- ===== src/Errors.antt =====
-- affinidi-messaging-mediator/src/common/errors.rs: the mediator's errors and their HTTP answers.
-- A message of an error is its format string; the arguments printed into it are left out, but for
-- the two times of an expiry.
pub mod Tests
use affinidi_messaging.Common.{ℕ, String, Bool, Option, ◌⧺◌}

pub data MediatorError : Type 0 where
  error_handling_error internal_error : String → String → MediatorError
  parse_error : String → String → String → MediatorError
  permission_error request_data_error service_limit_error unauthorized :
      String → String → MediatorError
  did_error : String → String → String → MediatorError
  config_error database_error message_unpack_error : String → String → MediatorError
  message_expired : String → ℕ → ℕ → MediatorError
  message_pack_error not_implemented session_error anonymous_message_error :
      String → String → MediatorError

pub record ErrorResponse : Type 0 where
  pub http_code : ℕ
  pub session_id : String
  pub error_code : ℕ
  pub error_code_str : String
  pub message : String

-- The session of a request, as `from_request_parts` of jwt_auth.rs builds it.
pub record Session : Type 0 where
  pub session_id : String
  pub authenticated : Bool
  pub challenge_sent : Option String
  pub did : String
  pub did_hash : String

abbrev response : String → ℕ → ℕ → String → String → ErrorResponse
response sid http code name message = record {
  http_code = http;
  session_id = sid;
  error_code = code;
  error_code_str = name;
  message = message;
}

unfoldable pub into_response : MediatorError → ErrorResponse
into_response (error_handling_error sid msg) = response sid 500 1 "ErrorHandlingError" msg
into_response (internal_error sid msg) = response sid 500 2 "InternalError" msg
into_response (parse_error sid _ msg) = response sid 400 3 "BadRequest: ParseError" msg
into_response (permission_error sid msg) = response sid 403 4 "Forbidden: PermissionError" msg
into_response (request_data_error sid msg) =
    response sid 400 5 "BadRequest: RequestDataError" ("Bad Request: (" ⧺ msg ⧺ ")")
into_response (service_limit_error sid msg) = response sid 400 6 "BadRequest: ServiceLimitError" msg
into_response (unauthorized sid msg) =
    response sid 401 7 "Unauthorized" ("Unauthorized access: " ⧺ msg)
into_response (did_error sid a msg) = response sid 400 8 "DIDError" ("did(" ⧺ a ⧺ ") Error: " ⧺ msg)
into_response (config_error sid msg) = response sid 503 9 "ConfigError" msg
into_response (database_error sid msg) = response sid 503 10 "DatabaseError" msg
into_response (message_unpack_error sid msg) = response sid 400 11 "MessageUnpackError" msg
into_response (message_expired sid _ _) =
    response sid 422 12 "MessageExpired" "Message expired: expiry({}) now({})"
into_response (message_pack_error sid msg) = response sid 400 13 "MessagePackError" msg
into_response (not_implemented sid msg) = response sid 501 14 "NotImplemented" msg
into_response (session_error sid msg) = response sid 406 15 "SessionError" msg
into_response (anonymous_message_error sid msg) = response sid 406 16 "AnonymousMessageError" msg
