-- ===== src/Messages/Inbound.antt =====
-- affinidi-messaging-mediator/src/messages/inbound.rs: the handling of one inbound message.
pub mod Delivery
use affinidi_messaging.Common.{
  ℕ, String, Bool, true, false, List, [], ◌∷◌, ◌++◌, length, ltb, Option, none, some, Result, ok,
  err, panic, then_ok, Action, lift, pure, fail, handle, ◌>>=◌, ◌>>◌, if◌then◌else◌,
}
use affinidi_messaging.Errors.{
  MediatorError, Session, internal_error, parse_error, message_unpack_error, message_pack_error,
}
use affinidi_messaging.Didcomm.Message.{Message}
use affinidi_messaging.Redis.{Redis, M}
use affinidi_messaging.Database.Streaming.{streaming_is_client_live, streaming_publish_message}
use affinidi_messaging.Database.Messages.{store_message}
use affinidi_messaging.Messages.{
  Outside, Clock, Config, MessageResponse, message, packed_message, ProcessMessageResponse,
}
use affinidi_messaging.Messages.Process.{process, pack}

-- `MetaEnvelope::new` and `Message::unpack`: no envelope, an envelope that cannot be unpacked, or
-- the message and whether it was encrypted.
pub data Unpacked : Type 0 where
  no_envelope not_unpacked : Unpacked
  unpacked : Message → Bool → Unpacked

-- The parts of the didcomm crate that the handler calls.
pub record Crypto : Type 0 where
  pub unpack : ℕ → String → Unpacked
  pub pack_encrypted : Message → String → Option String → String → ℕ → Option String

pub record InboundMessageList : Type 0 where
  pub messages : List (String × String)
  pub errors : List (String × MediatorError)

pub data InboundMessageResponse : Type 0 where
  stored : InboundMessageList → InboundMessageResponse
  ephemeral : String → InboundMessageResponse
  empty : InboundMessageResponse

module _ (r : Redis) (o : Outside) (crypto : Crypto) (config : Config) (clock : Clock) where
  unfoldable pub try_live_stream : String → String → Bool → M r (Unit {0})
  try_live_stream did_hash packed force_live_delivery = do
    live ← streaming_is_client_live r did_hash force_live_delivery
    elim live [
      | none ↦ pure tt
      | some stream_uuid ↦
          handle
            (streaming_publish_message r o.record_to_string did_hash stream_uuid packed
              force_live_delivery)
            (λ _. pure tt) (λ _. pure tt)
    ]

  unfoldable pub stream_all : Bool → List (String × String) → M r (Unit {0})
  stream_all force [] = pure tt
  stream_all force ((to_did, packed) ∷ more) =
      try_live_stream (o.digest to_did) packed force >> stream_all force more

  -- Every recipient is tried; what could not be stored is reported beside what was.
  unfoldable pub store_all :
      Session → List (String × String) → InboundMessageList → M r InboundMessageList
  store_all session [] acc = pure acc
  store_all session ((to_did, packed) ∷ more) acc =
      handle (store_message r o.digest session.session_id packed to_did (some config.mediator_did))
        (λ msg_id. pure (record acc { messages = acc.messages ++ (to_did, msg_id) ∷ [] }))
        (λ e. pure (record acc { errors = acc.errors ++ (to_did, e) ∷ [] }))
      >>= store_all session more

  -- `try_join_all`: the packed texts in order, or an error. Packing has one error only.
  unfoldable pub pack_all :
      Message → Bool → List String → Result MediatorError (List (String × String))
  pack_all msg encrypted [] = ok []
  pack_all msg encrypted (to_did ∷ to_dids) =
      then_ok
        (pack crypto.pack_encrypted msg to_did config.mediator_did encrypted
          config.to_keys_per_recipient_limit)
        λ packed. then_ok (pack_all msg encrypted to_dids) λ rest. ok ((to_did, packed) ∷ rest)

  unfoldable pub pack_for :
      Session → Message → Bool → List String → Result MediatorError (List (String × String))
  unfolding pack_all
  pack_for session msg encrypted [] =
      if ltb config.to_recipients_limit 0
      then err (message_pack_error session.session_id "Recipient count({}) exceeds limit")
      else err (message_pack_error session.session_id "Recipients are empty")
  pack_for session msg encrypted (to_did ∷ to_dids) =
      if ltb config.to_recipients_limit (length (to_did ∷ to_dids))
      then err (message_pack_error session.session_id "Recipient count({}) exceeds limit")
      else pack_all msg encrypted (to_did ∷ to_dids)

  unfoldable pub to_did_packed :
      Session → Bool → MessageResponse → Result MediatorError (List (String × String))
  unfolding pack_for
  to_did_packed session encrypted (packed_message to packed) = ok ((to, packed) ∷ [])
  to_did_packed session encrypted (message msg) = elim msg.to [
    | none ↦ err (message_pack_error session.session_id "MessageResponse is unmatched: {}")
    | some to_dids ↦ pack_for session msg encrypted to_dids
  ]

  -- `to_did_packed[0].1`.
  abbrev first_packed : List (String × String) → Result MediatorError InboundMessageResponse
  first_packed [] = panic
  first_packed ((to_did, packed) ∷ more) = ok (ephemeral packed)

  -- Live streaming to every recipient first, then the store or the answer itself.
  abbrev conclude : Session → Bool → List (String × String) → M r InboundMessageResponse
  conclude session true packed =
      store_all session packed (record { messages = []; errors = [] }) >>= λ list.
      pure (stored list)
  conclude session false packed = lift (first_packed packed)

  unfoldable pub deliver :
      Session → Bool → Bool → List (String × String) → M r InboundMessageResponse
  unfolding stream_all store_all
  deliver session store force packed = stream_all force packed >> conclude session store packed

  unfoldable pub respond :
      Session → Bool → Option ProcessMessageResponse → M r InboundMessageResponse
  unfolding to_did_packed deliver
  respond session encrypted none =
      fail (internal_error session.session_id "Expected a message to return, but got None")
  respond session encrypted (some p) =
      lift (to_did_packed session encrypted p.message_response)
      >>= deliver session p.store_message p.force_live_delivery

  unfoldable pub handle_inbound : Session → String → M r InboundMessageResponse
  unfolding respond
  handle_inbound session text =
      elim (crypto.unpack config.crypto_operations_per_message_limit text) [
        | no_envelope ↦ fail (parse_error session.session_id "Raw inbound DIDComm message" "{}")
        | not_unpacked ↦
            fail (
              message_unpack_error session.session_id
                "Couldn't unpack incoming message. Reason: {}")
        | unpacked msg encrypted ↦
            process r o config clock msg session >>= respond session encrypted
      ]
