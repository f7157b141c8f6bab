-- ===== src/Messages.antt =====
-- affinidi-messaging-mediator/src/messages: the types of incoming messages, what handling one
-- yields, and what the handlers call.
pub mod Ping
pub mod Routing
pub mod Pickup
pub mod Process
pub mod Inbound
pub mod Tests
use affinidi_messaging.Common.{
  ℕ, String, Bool, true, false, List, [], ◌∷◌, Option, none, some, ◌=ₛ◌, Result, ok, err, leb,
  if◌then◌else◌,
}
use affinidi_messaging.Errors.{MediatorError, parse_error, message_expired}
use affinidi_messaging.Json.{Value}
use affinidi_messaging.Didcomm.Message.{Message}
use affinidi_messaging.Tasks.Update.{PubSubRecord}

pub data MessageType : Type 0 where
  affinidi_authenticate forward_request message_pickup_status_request : MessageType
  message_pickup_delivery_request message_pickup_messages_received : MessageType
  message_pickup_live_delivery_change trust_ping : MessageType

unfoldable pub from_str : String → Result MediatorError MessageType
from_str s =
    if s =ₛ "https://didcomm.org/trust-ping/2.0/ping"
    then ok trust_ping
    else if s =ₛ "https://affinidi.com/atm/1.0/authenticate"
    then ok affinidi_authenticate
    else if s =ₛ "https://didcomm.org/messagepickup/3.0/status-request"
    then ok message_pickup_status_request
    else if s =ₛ "https://didcomm.org/messagepickup/3.0/live-delivery-change"
    then ok message_pickup_live_delivery_change
    else if s =ₛ "https://didcomm.org/messagepickup/3.0/delivery-request"
    then ok message_pickup_delivery_request
    else if s =ₛ "https://didcomm.org/messagepickup/3.0/messages-received"
    then ok message_pickup_messages_received
    else if s =ₛ "https://didcomm.org/routing/2.0/forward"
    then ok forward_request
    else err (parse_error "-1" s "Couldn't match on MessageType")

pub data MessageResponse : Type 0 where
  message : Message → MessageResponse
  packed_message : (to packed : String) → MessageResponse

pub record ProcessMessageResponse : Type 0 where
  pub store_message : Bool
  pub force_live_delivery : Bool
  pub message_response : MessageResponse

-- The bodies that serde reads out of a JSON value, SHA-256, base64, the serialiser, and the texts
-- of `Uuid::new_v4`: code of other crates.
pub record Outside : Type 0 where
  pub ping : Value → Option Bool
  pub status_request : Value → Option (Option String)
  pub live_delivery : Value → Option Bool
  pub delivery_request : Value → Option (String × ℕ)
  pub messages_received : Value → Option (List String)
  pub digest : String → String
  pub base64_encode : String → String
  pub value_to_string : Value → String
  pub record_to_string : PubSubRecord → Option String
  pub uuid : String

-- The readings of the clock, in seconds, while one message is handled.
pub record Clock : Type 0 where
  pub on_process : ℕ
  pub on_validate : ℕ
  pub on_reply : ℕ

pub record Config : Type 0 where
  pub mediator_did : String
  pub to_recipients_limit : ℕ
  pub to_keys_per_recipient_limit : ℕ
  pub crypto_operations_per_message_limit : ℕ
  pub streaming_task : Bool

-- The test of `expires_time` that every handler makes, with its error.
abbrev pub check_expiry : String → ℕ → Option ℕ → Result MediatorError (Unit {0})
check_expiry sid now none = ok tt
check_expiry sid now (some expires) =
    if leb expires now then err (message_expired sid expires now) else ok tt
