-- ===== src/Messages/Pickup/Handlers.antt =====
-- The four handlers of message_pickup.rs.
use affinidi_messaging.Common.{
  ℕ, String, Bool, true, false, not, List, [], ◌∷◌, ◌++◌, Option, none, some, ◌=ₛ◌, Result, ok, err,
  lift, pure, handle, unwrap, ◌>>=◌, ◌>>◌, if◌then◌else◌, add_u64,
}
use affinidi_messaging.Errors.{MediatorError, Session, request_data_error, internal_error}
use affinidi_messaging.Json.{object, string, end, field}
use affinidi_messaging.Didcomm.Message.{
  Attachment, base64, attachment_new, Message, build, add_to, set_from, set_thid, set_created_time,
  set_expires_time, add_attachments, finalize,
}
use affinidi_messaging.Redis.{Redis, M}
use affinidi_messaging.Tasks.Update.{StreamingUpdateState, start, stop}
use affinidi_messaging.Database.Elements.{MessageListElement, GetMessagesResponse, do_not_delete}
use affinidi_messaging.Database.Messages.{fetch_messages, get_message, delete_message}
use affinidi_messaging.Messages.{Outside, Clock, Config, message, ProcessMessageResponse}
use affinidi_messaging.Messages.Pickup.{
  validate_msg, thread_of, parse_message_received_body, parse_and_validate_delivery_request_body,
}
use affinidi_messaging.Messages.Pickup.Status.{generate_status_reply}

-- The hash whose status is asked for: a `recipient_did` must be the session's.
abbrev pub recipient_hash : Outside → Session → Option (Option String) → Result MediatorError String
recipient_hash o session (some (some recipient_did)) =
    if not (recipient_did =ₛ session.did)
    then err
        (request_data_error session.session_id "recipient_did: ({}) doesn't match session.did!")
    else ok (o.digest recipient_did)
recipient_hash o session _ = ok session.did_hash

-- The attachments of the messages that have a text.
abbrev pub attachments_of : Outside → List MessageListElement → List Attachment
attachments_of o [] = []
attachments_of o (element ∷ elements) = elim element.msg [
  | none ↦ attachments_of o elements
  | some msg ↦
      record (attachment_new (base64 (o.base64_encode msg) none)) { id = some element.msg_id }
      ∷ attachments_of o elements
]

abbrev pub delivery_msg :
    Outside → String → ℕ → Session → String → String → List MessageListElement → Message
delivery_msg o mediator_did now session recipient_did thid success = finalize (
    set_expires_time (add_u64 now 300) (
      set_created_time now (
        set_from mediator_did (
          add_to session.did (
            add_attachments (attachments_of o success) (
              set_thid thid (
                build o.uuid "https://didcomm.org/messagepickup/3.0/delivery"
                  (object (field "recipient_did" (string recipient_did) end)))))))))

module _ (r : Redis) (o : Outside) (config : Config) (clock : Clock) where
  -- `_validate_msg(..).unwrap()`.
  abbrev pub validated : Message → Session → M r (Unit {0})
  validated msg session =
      unwrap (lift (validate_msg clock.on_validate config.mediator_did msg session))

  abbrev reply :
      Session → String → String → Bool → Option Bool → M r (Option ProcessMessageResponse)
  reply = generate_status_reply r o config.mediator_did clock.on_reply

  unfoldable pub status_request : Message → Session → M r (Option ProcessMessageResponse)
  unfolding validate_msg
  status_request msg session = do
    validated msg session
    did_hash ← lift (recipient_hash o session (o.status_request msg.body))
    reply session did_hash (thread_of msg msg.thid) false none

  -- `channel.send(..)` to the streaming task, which fails once the task has ended.
  unfoldable pub send_update : Session → StreamingUpdateState → String → M r (Unit {0})
  send_update session state problem w =
      if w.task_runs
      then (
        ok tt,
        record w {
          updates = w.updates ++ record { did_hash = session.did_hash; state = state } ∷ [];
        },
      )
      else (err (internal_error session.session_id problem), w)

  -- Without a streaming task nothing is sent.
  abbrev pub switch : Bool → Bool → Session → M r (Unit {0})
  switch false live_delivery session = pure tt
  switch true true session =
      send_update session start "Error sending start message to streaming task"
  switch true false session =
      send_update session stop "Error sending stop message to streaming task"

  abbrev pub live_body : Session → Option Bool → Result MediatorError Bool
  live_body session (some b) = ok b
  live_body session none =
      err (request_data_error session.session_id "Failed to parse live_delivery from message body")

  unfoldable pub toggle_live_delivery : Message → Session → M r (Option ProcessMessageResponse)
  unfolding validate_msg send_update
  toggle_live_delivery msg session = do
    validated msg session
    live_delivery ← lift (live_body session (o.live_delivery msg.body))
    switch config.streaming_task live_delivery session
    reply session session.did_hash (thread_of msg msg.thid) true (some live_delivery)

  abbrev delivered :
      Session → String → String → GetMessagesResponse → M r (Option ProcessMessageResponse)
  delivered session recipient_did thid messages = elim messages.success [
    | [] ↦ reply session (o.digest recipient_did) thid false none
    | element ∷ elements ↦ pure (
        some (record {
          store_message = false;
          force_live_delivery = false;
          message_response = message (
              delivery_msg o config.mediator_did clock.on_reply session recipient_did thid
                (element ∷ elements));
        }))
  ]

  unfoldable pub delivery_request : Message → Session → M r (Option ProcessMessageResponse)
  unfolding validate_msg parse_and_validate_delivery_request_body
  delivery_request msg session = do
    validated msg session
    (recipient_did, limit) ← lift (parse_and_validate_delivery_request_body o session msg)
    messages ←
        fetch_messages r session.session_id (o.digest recipient_did)
          (record { limit = limit; start_id = none; delete_policy = do_not_delete })
    delivered session recipient_did (thread_of msg msg.thid) messages

  -- The loop over the ids: an error on one of them is only logged.
  unfoldable pub delete_received : Session → List String → M r (Unit {0})
  delete_received session [] = pure tt
  delete_received session (msg_id ∷ ids) =
      handle (get_message r session.did_hash msg_id)
        (λ _.
          handle (delete_message r session.session_id session.did_hash msg_id) (λ _. pure tt)
            (λ _. pure tt))
        (λ _. pure tt)
      >> delete_received session ids

  unfoldable pub messages_received : Message → Session → M r (Option ProcessMessageResponse)
  unfolding validate_msg parse_message_received_body delete_received
  messages_received msg session = do
    validated msg session
    ids ← lift (parse_message_received_body o session msg)
    delete_received session ids
    unwrap (reply session session.did_hash (thread_of msg msg.thid) false none)
