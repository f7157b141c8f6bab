-- ===== src/Messages/Routing.antt =====
-- affinidi-messaging-mediator/src/messages/protocols/routing.rs: a forward request.
use affinidi_messaging.Common.{ℕ, String, true, Option, none, some, Result, ok, err, then_ok}
use affinidi_messaging.Errors.{MediatorError, Session, request_data_error}
use affinidi_messaging.Didcomm.Message.{Message}
use affinidi_messaging.Didcomm.Routing.{ParsedForward, try_parse_forward}
use affinidi_messaging.Messages.{Outside, packed_message, ProcessMessageResponse, check_expiry}

abbrev forwarded :
    Outside → String → Option ParsedForward → Result MediatorError (Option ProcessMessageResponse)
forwarded o sid (some p) = ok (
    some (record {
      store_message = true;
      force_live_delivery = true;
      message_response = packed_message p.next (o.value_to_string p.forwarded_msg);
    }))
forwarded o sid none =
    err (request_data_error sid "Message is not a valid ForwardRequest:\n {msg:?}\n")

unfoldable pub process :
    Outside → ℕ → Message → Session → Result MediatorError (Option ProcessMessageResponse)
process o now msg session =
    then_ok (check_expiry session.session_id now msg.expires_time)
      λ _. forwarded o session.session_id (try_parse_forward msg)
