-- ===== src/Errors/Tests.antt =====
-- The answers at given errors.
use affinidi_messaging.Common.{◌≡◌, refl}
use affinidi_messaging.Errors.{MediatorError, session_error, request_data_error, into_response}

abbrev replayed : MediatorError
replayed = session_error "s1" "Session is in an invalid state for authentication"

wrapped_message : (into_response (request_data_error "s1" "limit")).message ≡ "Bad Request: (limit)"
unfolding into_response
wrapped_message = refl
