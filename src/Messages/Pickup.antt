-- ===== src/Messages/Pickup.antt =====
-- affinidi-messaging-mediator/src/messages/protocols/message_pickup.rs: Message Pickup 3.0.
pub mod Status
pub mod Handlers
pub mod Validation
pub mod Replies
use affinidi_messaging.Common.{
  ℕ, String, Bool, true, false, not, ◌&&◌, ◌||◌, List, [], ◌∷◌, Option, none, some, lookup, ◌=ₛ◌,
  ltb, leb, Result, ok, err, then_ok, ensure, if◌then◌else◌,
}
use affinidi_messaging.Errors.{MediatorError, Session, request_data_error, unauthorized}
use affinidi_messaging.Json.{Value, as_str}
use affinidi_messaging.Didcomm.Message.{Message}
use affinidi_messaging.Messages.{Outside, check_expiry}
use affinidi_messaging.Messages.Ping.{first_to}

abbrev pub max_retrieved_msgs : ℕ
max_retrieved_msgs = 100

abbrev pub min_retrieved_msgs : ℕ
min_retrieved_msgs = 1

-- The header's value, where it is a text.
abbrev pub text_of : Option Value → Option String
text_of none = none
text_of (some v) = as_str v

abbrev pub is_text : String → Option String → Bool
is_text s none = false
is_text s (some t) = t =ₛ s

abbrev check_return_route : String → Option Value → Result MediatorError (Unit {0})
check_return_route sid none =
    err (request_data_error sid "return_route: extra-header does not exist! It should!")
check_return_route sid (some header) =
    if is_text "all" (as_str header)
    then ok tt
    else err (
        request_data_error sid
          "return_route: extra-header exists. Expected (all) but received ({})")

abbrev check_from : String → Option String → Result MediatorError (Unit {0})
check_from sid (some from) = ok tt
check_from sid none = err (
    request_data_error sid
      "Message Pickup 3.0 messages-received can not be anonymous as it is needed from to validate permissions")

unfoldable pub validate_msg : ℕ → String → Message → Session → Result MediatorError (Unit {0})
unfolding lookup
validate_msg now mediator_did msg session =
    then_ok (check_expiry session.session_id now msg.expires_time) λ _.
      then_ok (first_to session.session_id msg.to) λ to.
        then_ok
          (ensure (to =ₛ mediator_did) (
            request_data_error session.session_id
              "message to: ({}) didn't match ATM DID ({}). messages-received messages must be addressed directly to ATM!"))
          λ _.
            then_ok (check_from session.session_id msg.from)
              λ _. check_return_route session.session_id (lookup "return_route" msg.extra_headers)

abbrev pub thread_of : Message → Option String → String
thread_of msg none = msg.id
thread_of msg (some thid) = thid

abbrev or_invalid : {A : Type 0} → MediatorError → Option A → Result MediatorError A
or_invalid e none = err e
or_invalid e (some a) = ok a

unfoldable pub parse_message_received_body :
    Outside → Session → Message → Result MediatorError (List String)
parse_message_received_body o session msg =
    or_invalid
      (request_data_error session.session_id "messages-received body isn't valid. Reason: {}")
      (o.messages_received msg.body)

abbrev check_delivery_request : Session → String → ℕ → Result MediatorError (String × ℕ)
check_delivery_request session recipient_did limit =
    then_ok
      (ensure (session.did =ₛ recipient_did)
        (unauthorized session.session_id "Session DID \"{}\" doesn't match recipient DID \"{}\""))
      λ _.
        then_ok
          (ensure (not (ltb limit min_retrieved_msgs || ltb max_retrieved_msgs limit)) (
            request_data_error session.session_id
              "limit must be between 1 and 100 inclusive. Received limit({})"))
          λ _. ok (recipient_did, limit)

unfoldable pub parse_and_validate_delivery_request_body :
    Outside → Session → Message → Result MediatorError (String × ℕ)
parse_and_validate_delivery_request_body o session msg =
    then_ok
      (or_invalid
        (request_data_error session.session_id "delivery-request body isn't valid. Reason: {}")
        (o.delivery_request msg.body))
      λ body. check_delivery_request session body.0 body.1
