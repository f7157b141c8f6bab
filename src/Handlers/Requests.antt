-- ===== src/Handlers/Requests.antt =====
-- The REST handlers of affinidi-messaging-mediator/src/handlers: message_delete.rs,
-- message_outbound.rs, inbox_fetch.rs, message_list.rs, message_inbound.rs.
pub mod Limits
pub mod Tests
use affinidi_messaging.Common.{
  ℕ, String, Bool, true, false, not, ◌||◌, List, [], ◌∷◌, ◌++◌, length, ltb, Option, none, some,
  ◌=ₛ◌, Result, ok, err, Action, lift, pure, fail, handle, ◌>>=◌, ◌>>◌, if◌then◌else◌, ensure,
}
use affinidi_messaging.Errors.{
  MediatorError, Session, request_data_error, config_error, permission_error,
}
use affinidi_messaging.Redis.{Redis, M}
use affinidi_messaging.Messages.{Outside, Clock, Config}
use affinidi_messaging.Messages.Inbound.{Crypto, InboundMessageResponse, handle_inbound}
use affinidi_messaging.Database.Elements.{
  MessageListElement, GetMessagesResponse, empty_response, Folder, FetchOptions,
}
use affinidi_messaging.Database.Messages.{
  get_message, delete_message, fetch_messages, list_messages,
}

-- The answer to a request that succeeds: status 200, error code 0.
pub record SuccessResponse (A : Type 0) : Type 0 where
  pub session_id : String
  pub http_code : ℕ
  pub error_code : ℕ
  pub content : A

abbrev pub success : {A : Type 0} → Session → A → SuccessResponse A
success session content = record {
  session_id = session.session_id;
  http_code = 200;
  error_code = 0;
  content = content;
}

pub record DeleteMessageResponse : Type 0 where
  pub success : List String
  pub errors : List (String × MediatorError)

module _ (r : Redis) where
  -- The loop of the delete handler, in the order of the request.
  unfoldable pub delete_each :
      Session → List String → DeleteMessageResponse → M r DeleteMessageResponse
  delete_each session [] deleted = pure deleted
  delete_each session (id ∷ ids) deleted =
      handle (delete_message r session.session_id session.did_hash id)
        (λ _. pure (record deleted { success = deleted.success ++ id ∷ [] }))
        (λ e. pure (record deleted { errors = deleted.errors ++ (id, e) ∷ [] }))
      >>= delete_each session ids

  unfoldable pub message_delete_handler :
      ℕ → Session → List String → M r (SuccessResponse DeleteMessageResponse)
  unfolding delete_each
  message_delete_handler max_deleted_messages session message_ids = do
    lift (
        ensure (not (ltb max_deleted_messages (length message_ids))) (
          request_data_error session.session_id
            "Operation exceeds the allowed limit. You may delete a maximum of 100 messages per request. Received {} ids."))
    deleted ← delete_each session message_ids (record { success = []; errors = [] })
    pure (success session deleted)

  -- The delete of a message that was got, where the request asks for it.
  abbrev delete_got : Bool → Session → String → GetMessagesResponse → M r GetMessagesResponse
  delete_got false session id messages = pure messages
  delete_got true session id messages =
      handle (delete_message r session.session_id session.did_hash id) (λ _. pure messages)
        (λ e. pure (record messages { delete_errors = messages.delete_errors ++ (id, e) ∷ [] }))

  unfoldable pub get_each :
      Bool → Session → List String → GetMessagesResponse → M r GetMessagesResponse
  get_each delete session [] messages = pure messages
  get_each delete session (id ∷ ids) messages =
      handle (get_message r session.did_hash id)
        (λ msg.
          delete_got delete session id (record messages { success = messages.success ++ msg ∷ [] }))
        (λ e. pure (record messages { get_errors = messages.get_errors ++ (id, e) ∷ [] }))
      >>= get_each delete session ids

  unfoldable pub message_outbound_handler :
      Session → Bool → List String → M r (SuccessResponse GetMessagesResponse)
  unfolding get_each
  message_outbound_handler session delete message_ids = do
    messages ← get_each delete session message_ids empty_response
    pure (success session messages)

  abbrev pub start_id_ok : (String → Bool) → Option String → Bool
  start_id_ok is_match none = true
  start_id_ok is_match (some id) = is_match id

  -- `is_match` is the regular expression `\d{13,14}-\d{1,3}$`.
  unfoldable pub inbox_fetch_handler :
      (String → Bool) → Session → FetchOptions → M r (SuccessResponse GetMessagesResponse)
  inbox_fetch_handler is_match session body = do
    lift (
        ensure (not (ltb body.limit 1 || ltb 100 body.limit)) (
          config_error session.session_id
            "limit must be between 1 and 100 inclusive. Received limit({})"))
    lift (
        ensure (start_id_ok is_match body.start_id) (
          config_error session.session_id
            "start_id isn't valid. Should match UNIX_EPOCH in milliseconds + -(0..999). Received start_id({})"))
    results ← fetch_messages r session.session_id session.did_hash body
    pure (success session results)

  unfoldable pub message_list_handler :
      ℕ → Session → String → Folder → M r (SuccessResponse (List MessageListElement))
  message_list_handler max_listed_messages session did_hash folder = do
    lift (
        ensure (session.did_hash =ₛ did_hash) (
          permission_error session.session_id "You don't have permission to access this resource."))
    messages ← list_messages r did_hash folder none max_listed_messages
    pure (success session messages)

-- `text` is the body as serde prints it. Serialising a struct of texts does not fail.
unfoldable pub message_inbound_handler :
    (r : Redis)
    → Outside
    → Crypto
    → Config
    → Clock
    → Session
    → String
    → M r (SuccessResponse InboundMessageResponse)
message_inbound_handler r o crypto config clock session text = do
  response ← handle_inbound r o crypto config clock session text
  pure (success session response)
