-- ===== src/Messages/Process.antt =====
-- `process` and `pack` of affinidi-messaging-mediator/src/messages/mod.rs.
use affinidi_messaging.Common.{
  ℕ, String, Bool, true, false, Option, none, some, Result, ok, err, lift, fail, ◌>>=◌, ◌>>◌,
}
use affinidi_messaging.Errors.{MediatorError, Session, not_implemented, message_pack_error}
use affinidi_messaging.Didcomm.Message.{Message}
use affinidi_messaging.Redis.{Redis, M}
use affinidi_messaging.Messages.{
  MessageType, affinidi_authenticate, forward_request, message_pickup_status_request,
  message_pickup_delivery_request, message_pickup_messages_received,
  message_pickup_live_delivery_change, trust_ping, from_str, Outside, Clock, Config,
  ProcessMessageResponse, check_expiry,
}
use affinidi_messaging.Messages.Ping
use affinidi_messaging.Messages.Routing
use affinidi_messaging.Messages.Pickup.Handlers.{
  status_request, delivery_request, messages_received, toggle_live_delivery,
}

module _ (r : Redis) (o : Outside) (config : Config) (clock : Clock) where
  unfoldable pub process_type :
      MessageType → Message → Session → M r (Option ProcessMessageResponse)
  process_type trust_ping msg session = lift (Ping.process o clock.on_validate msg session)
  process_type message_pickup_status_request msg session =
      status_request r o config clock msg session
  process_type message_pickup_delivery_request msg session =
      delivery_request r o config clock msg session
  process_type message_pickup_messages_received msg session =
      messages_received r o config clock msg session
  process_type message_pickup_live_delivery_change msg session =
      toggle_live_delivery r o config clock msg session
  process_type affinidi_authenticate msg session = fail (
      not_implemented session.session_id
        "Affinidi Authentication is only handled by the Authorization handler")
  process_type forward_request msg session = lift (Routing.process o clock.on_validate msg session)

  unfoldable pub process : Message → Session → M r (Option ProcessMessageResponse)
  unfolding process_type
  process msg session = do
    msg_type ← lift (from_str msg.type_)
    lift (check_expiry "-1" clock.on_process msg.expires_time)
    process_type msg_type msg session

-- `pack`, over the crate's `pack_encrypted`; `encrypted` is of the message that is answered.
unfoldable pub pack :
    (Message → String → Option String → String → ℕ → Option String)
    → Message
    → String
    → String
    → Bool
    → ℕ
    → Result MediatorError String
pack pack_encrypted msg to_did mediator_did true to_keys_per_recipient_limit =
    elim (pack_encrypted msg to_did msg.from mediator_did to_keys_per_recipient_limit) [
      | none ↦ err (message_pack_error "-1" "{}")
      | some packed ↦ ok packed
    ]
pack pack_encrypted msg to_did mediator_did false to_keys_per_recipient_limit =
    err (message_pack_error "-1" "PACK METHOD NOT IMPLEMENTED")
