-- ===== src/Database/Streaming.antt =====
-- affinidi-messaging-mediator/src/database/streaming.rs: the live-streaming state that the
-- mediators share in Redis.
use affinidi_messaging.Common.{
  String, Bool, List, [], ◌∷◌, Option, none, some, ◌=ₛ◌, Result, ok, err, panic, if◌then◌else◌,
  lift, pure, handle, ◌>>=◌, ◌>>◌, ◌⧺◌, split, is_some,
}
use mathlib.Core.Option
use affinidi_messaging.Errors.{MediatorError, database_error}
use affinidi_messaging.Redis.{Redis, text, num, cmd, M, get_async_connection, query_async, run}
use affinidi_messaging.Tasks.Update.{PubSubRecord}

abbrev pub sessions_key : String → String
sessions_key stream_uuid = "STREAMING_SESSIONS:" ⧺ stream_uuid

-- A row is the uuid and TRUE or FALSE; a row of more or fewer parts is no valid data.
unfoldable pub live_row : List String → Bool → Option String
live_row (uuid ∷ active ∷ []) force_delivery =
    if active =ₛ "TRUE" then some uuid else if force_delivery then some uuid else none
live_row parts force_delivery = none

abbrev pub row_of : Option String → Bool → Option String
row_of none force_delivery = none
row_of (some row) force_delivery = live_row (split b':' row) force_delivery

module _ (r : Redis) where
  open r use {Reply, is_nil, to_text, to_number, to_vec}

  -- The first of the replies is the count; an empty list of replies panics at `response[0]`.
  abbrev cleaned : List Reply → Result MediatorError (Unit {0})
  cleaned [] = panic
  cleaned (v ∷ vs) =
      if is_some (to_number v)
      then ok tt
      else err (database_error "NA" "redis fn clean_start_streaming() failed. Response ({:?})")

  unfoldable pub streaming_clean_start : String → M r (Unit {0})
  streaming_clean_start uuid = do
    get_async_connection r
    response ←
        query_async r to_vec
          (database_error "NA" "redis function clean_start_streaming() failed. Reason: {}")
          (cmd "FCALL" (text "clean_start_streaming" ∷ num 1 ∷ text uuid ∷ []) ∷ [])
    lift (cleaned response)

  -- `query_async::<Option<String>>`: nil is `None`.
  abbrev to_option : Reply → Option (Option String)
  to_option v = if is_nil v then some none else Option.map some (to_text v)

  unfoldable pub streaming_is_client_live : String → Bool → M r (Option String)
  unfolding live_row
  streaming_is_client_live did_hash force_delivery =
      handle (get_async_connection r)
        (λ _.
          handle
            (query_async r to_option (database_error "NA" "")
              (cmd "HGET" (text "GLOBAL_STREAMING" ∷ text did_hash ∷ []) ∷ []))
            (λ row. pure (row_of row force_delivery)) (λ e. pure none))
        (λ e. pure none)

  -- `serde_json::to_string` of a pub/sub record may fail.
  abbrev serialised : (PubSubRecord → Option String) → PubSubRecord → Result MediatorError String
  serialised to_string p = elim (to_string p) [
    | none ↦ err (
        database_error "NA"
          "publish_live_message() for did_hash({}) failed to serialize message. Reason: {}")
    | some s ↦ ok s
  ]

  unfoldable pub streaming_publish_message :
      (PubSubRecord → Option String) → String → String → String → Bool → M r (Unit {0})
  streaming_publish_message to_string did_hash stream_uuid message force_delivery = do
    published ← lift (
        serialised to_string
          (record { did_hash = did_hash; message = message; force_delivery = force_delivery }))
    get_async_connection r
    run r
        (database_error "NA"
          "publish_live_message() for did_hash({}) channel(CHANNEL:{}) failed. Reason: {}")
        (cmd "PUBLISH" (text ("CHANNEL:" ⧺ stream_uuid) ∷ text published ∷ []) ∷ [])

  unfoldable pub streaming_register_client : String → String → M r (Unit {0})
  streaming_register_client did_hash stream_uuid = do
    get_async_connection r
    run r
        (database_error "NA"
          "streaming_register_client() for did_hash({}) stream_uuid(STREAMING_SESSIONS:{}) failed. Reason: {}")
        (cmd "SADD" (text (sessions_key stream_uuid) ∷ text did_hash ∷ [])
          ∷ cmd "HSET"
              (text "GLOBAL_STREAMING" ∷ text did_hash ∷ text (stream_uuid ⧺ ":FALSE") ∷ [])
          ∷ [])

  unfoldable pub streaming_start_live : String → String → M r (Unit {0})
  streaming_start_live did_hash stream_uuid = do
    get_async_connection r
    run r
        (database_error "NA"
          "streaming_start_live() for did_hash({}) stream_uuid(STREAMING_SESSIONS:{}) failed. Reason: {}")
        (cmd "HSET"
            (text "GLOBAL_STREAMING" ∷ text did_hash ∷ text (stream_uuid ⧺ ":" ⧺ "TRUE") ∷ [])
          ∷ [])

  unfoldable pub streaming_stop_live : String → String → M r (Unit {0})
  streaming_stop_live did_hash stream_uuid = do
    get_async_connection r
    run r
        (database_error "NA"
          "streaming_stop_live() for did_hash({}) stream_uuid(STREAMING_SESSIONS:{}) failed. Reason: {}")
        (cmd "HSET"
            (text "GLOBAL_STREAMING" ∷ text did_hash ∷ text (stream_uuid ⧺ ":" ⧺ "FALSE") ∷ [])
          ∷ [])

  unfoldable pub streaming_deregister_client : String → String → M r (Unit {0})
  streaming_deregister_client did_hash stream_uuid = do
    get_async_connection r
    run r
        (database_error "NA"
          "streaming_deregister_client() for did_hash({}) stream_uuid(STREAMING_SESSIONS:{}) failed. Reason: {}")
        (cmd "SREM" (text (sessions_key stream_uuid) ∷ text did_hash ∷ [])
          ∷ cmd "HDEL" (text "GLOBAL_STREAMING" ∷ text did_hash ∷ [])
          ∷ [])
