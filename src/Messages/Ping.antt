-- ===== src/Messages/Ping.antt =====
-- affinidi-messaging-mediator/src/messages/protocols/ping.rs: the answer to a trust ping.
use affinidi_messaging.Common.{
  ℕ, String, Bool, true, false, List, [], ◌∷◌, Option, none, some, Result, ok, err, then_ok,
  add_u64,
}
use affinidi_messaging.Errors.{MediatorError, Session, request_data_error}
use affinidi_messaging.Json.{object, end}
use affinidi_messaging.Didcomm.Message.{
  Message, build, add_to, set_from, set_thid, set_created_time, set_expires_time, finalize,
}
use affinidi_messaging.Messages.{Outside, message, ProcessMessageResponse, check_expiry}

abbrev pub first_to : String → Option (List String) → Result MediatorError String
first_to sid (some (first ∷ more)) = ok first
first_to sid (some []) = err (
    request_data_error sid
      "Message missing valid 'to' field, expect at least one address in array.")
first_to sid none = err (request_data_error sid "Message missing 'to' field")

abbrev true_unless : Option Bool → Bool
true_unless none = true
true_unless (some b) = b

abbrev sender : String → Option String → Result MediatorError String
sender sid (some from) = ok from
sender sid none = err (
    request_data_error sid
      "Anonymous Trust-Ping is asking for a response, this is an invalid request!")

abbrev response_msg : String → ℕ → Message → String → String → Message
response_msg uuid now msg from to = finalize (
    set_expires_time (add_u64 now 300) (
      set_created_time now (
        set_from to (
          add_to from (
            set_thid msg.id (build uuid "https://didcomm.org/trust-ping/2.0/ping" (object end)))))))

-- `respond` is what the body asks for; a body that cannot be read asks for a response.
unfoldable pub answer :
    Outside
    → ℕ
    → Message
    → Session
    → String
    → Bool
    → Result MediatorError (Option ProcessMessageResponse)
answer o now msg session to false = ok none
answer o now msg session to true = then_ok (sender session.session_id msg.from) λ from. ok (
    some (record {
      store_message = true;
      force_live_delivery = false;
      message_response = message (response_msg o.uuid now msg from to);
    }))

unfoldable pub process :
    Outside → ℕ → Message → Session → Result MediatorError (Option ProcessMessageResponse)
unfolding answer
process o now msg session = then_ok (check_expiry session.session_id now msg.expires_time) λ _.
    then_ok (first_to session.session_id msg.to)
      λ to. answer o now msg session to (true_unless (o.ping msg.body))
