-- ===== src/Database/Messages.antt =====
-- affinidi-messaging-mediator/src/database: store.rs, delete.rs, get.rs, fetch.rs, list.rs, and the
-- counters of stats.rs. The scripts that FCALL runs are atm-functions.lua, on the server's side.
pub mod Access
pub mod Tests
use mathlib.Core.Option
use Prim.Native.String.{len}
use affinidi_messaging.Common.{
  ℕ, ◌+◌, String, Bool, not, ◌||◌, List, [], ◌∷◌, ◌++◌, Option, none, some, ◌=ₛ◌, Result, ok, err,
  panic, then_ok, if◌then◌else◌, Action, lift, pure, fail, handle, ◌>>=◌, ◌>>◌, ◌⧺◌, split,
  parse_u64,
}
use affinidi_messaging.Errors.{MediatorError, database_error, internal_error}
use affinidi_messaging.Redis.{
  Redis, Arg, text, num, as_i64, Command, cmd, M, get_async_connection, query_async, run,
}
use affinidi_messaging.Database.Elements.{
  MessageListElement, GetMessagesResponse, Folder, inbox, outbox, FetchDeletePolicy, optimistic,
  on_receive, do_not_delete, FetchOptions, empty_element, empty_response, tuples, parse_or_zero,
  get_field, fetch_field, list_field, fields,
}

-- `did_hash == address.unwrap_or("")`.
abbrev pub is_address : String → Option String → Bool
is_address did_hash none = did_hash =ₛ ""
is_address did_hash (some a) = did_hash =ₛ a

abbrev pub start_of : Option String → String
start_of none = "-"
start_of (some id) = id

abbrev pub folder_key : Folder → String → String
folder_key inbox did_hash = "RECEIVE_Q:" ⧺ did_hash
folder_key outbox did_hash = "SEND_Q:" ⧺ did_hash

abbrev with_stream_id : Folder → String → MessageListElement
with_stream_id inbox id = record empty_element { receive_id = some id }
with_stream_id outbox id = record empty_element { send_id = some id }

abbrev first_part : List String → String
first_part [] = ""
first_part (part ∷ parts) = part

module _ (r : Redis) where
  open r use {Reply, is_nil, to_text, to_vec, to_texts}

  -- The sender's arguments of store_message.
  abbrev sender : (String → String) → Option String → List Arg
  sender digest none = text "ANONYMOUS" ∷ []
  sender digest (some from_did) = text from_did ∷ text (digest from_did) ∷ []

  -- The result of the script is not looked at.
  unfoldable pub store_message :
      (String → String) → String → String → String → Option String → M r String
  store_message digest session_id message to_did from_did = do
    get_async_connection r
    let message_hash = digest message
    stored ←
        query_async r to_text (database_error session_id "Couldn't store message in database: {}") (
          cmd "FCALL" (
            text "store_message"
            ∷ num 1
            ∷ text message_hash
            ∷ text message
            ∷ num (len message)
            ∷ text to_did
            ∷ text (digest to_did)
            ∷ sender digest from_did)
          ∷ [])
    pure message_hash

  unfoldable pub delete_message : String → String → String → M r (Unit {0})
  delete_message session_id did_hash message_hash = do
    get_async_connection r
    response ←
        query_async r to_text
          (database_error did_hash "Couldn't delete message_id({}) from database for DID {}: {}")
          (cmd "FCALL" (text "delete_message" ∷ num 1 ∷ text message_hash ∷ text did_hash ∷ [])
            ∷ [])
    lift (if not (response =ₛ "OK") then err (database_error session_id response) else ok tt)

  -- The second command lacks the key GLOBAL.
  unfoldable pub update_send_stats : Arg → M r (Unit {0})
  update_send_stats sent_bytes = do
    get_async_connection r
    run r (database_error "INTERNAL" "Couldn't update GLOBAL SEND stats. Reason: {}") (
        cmd "HINCRBY" (text "GLOBAL" ∷ text "SENT_BYTES" ∷ sent_bytes ∷ [])
        ∷ cmd "HINCRBY" (text "SENT_COUNT" ∷ num 1 ∷ [])
        ∷ [])

  -- `query_async::<(Value, Vec<String>)>`.
  abbrev pub pair_of : Option (List Reply) → Option (Reply × List String)
  pair_of (some (v ∷ kvs ∷ [])) = Option.map (λ texts. (v, texts)) (to_texts kvs)
  pair_of _ = none

  abbrev pub body_of : String → Reply → Result MediatorError String
  body_of did_hash v =
      if is_nil v
      then err (database_error did_hash "Message not found for ID: {}")
      else elim (to_text v) [
        | none ↦ err (internal_error did_hash "Couldn't convert didcomm_message to string: {}")
        | some s ↦ ok s
      ]

  -- The counters are updated for an owner only, and their failure is passed over.
  unfoldable pub owned : String → MessageListElement → M r MessageListElement
  unfolding update_send_stats
  owned did_hash message =
      if is_address did_hash message.from_address || is_address did_hash message.to_address
      then handle (update_send_stats (as_i64 message.size)) (λ _. pure message) (λ _. pure message)
      else fail (database_error did_hash "Message not found for DID: {}")

  unfoldable pub get_message : String → String → M r MessageListElement
  unfolding get_field tuples
  get_message did_hash msg_id = do
    get_async_connection r
    (didcomm_message, meta_data) ←
        query_async r (λ v. pair_of (to_vec v))
          (database_error "NA" "Couldn't get message_id({}) from database: {}")
          (cmd "GET" (text ("MSG:" ⧺ msg_id) ∷ [])
            ∷ cmd "HGETALL" (text ("MSG:META:" ⧺ msg_id) ∷ [])
            ∷ [])
    body ← lift (body_of did_hash didcomm_message)
    owned did_hash (
        fields get_field (tuples meta_data)
          (record empty_element { msg_id = msg_id; msg = some body }))

  -- The delete that the Optimistic policy asks for, and what it adds to the errors.
  unfoldable pub delete_if_asked :
      String → String → FetchDeletePolicy → String → GetMessagesResponse → M r GetMessagesResponse
  delete_if_asked session_id did_hash optimistic msg_id messages =
      handle (delete_message session_id did_hash msg_id) (λ _. pure messages)
        (λ e. pure (record messages { delete_errors = messages.delete_errors ++ (msg_id, e) ∷ [] }))
  delete_if_asked session_id did_hash _ msg_id messages = pure messages

  -- The loop over the items that the script returns. The text of an item that cannot be read is
  -- left out.
  unfoldable pub fetch_items :
      String
      → String
      → FetchDeletePolicy
      → List Reply
      → GetMessagesResponse
      → M r GetMessagesResponse
  unfolding fetch_field tuples
  fetch_items session_id did_hash policy [] messages = pure messages
  fetch_items session_id did_hash policy (item ∷ items) messages = elim (to_texts item) [
    | none ↦
        fetch_items session_id did_hash policy items (record messages {
          get_errors = messages.get_errors ++ ("", internal_error "" "{}") ∷ [];
        })
    | some sub_item ↦
        delete_if_asked session_id did_hash policy
          (fields fetch_field (tuples sub_item) empty_element).msg_id messages
        >>= λ after. fetch_items session_id did_hash policy items (record after {
          success = after.success ++ fields fetch_field (tuples sub_item) empty_element ∷ [];
        })
  ]

  unfoldable pub fetch_messages : String → String → FetchOptions → M r GetMessagesResponse
  fetch_messages session_id did_hash options = do
    get_async_connection r
    results ←
        query_async r to_vec (database_error "NA" "Couldn't fetch_messages() from database: {}") (
          cmd "FCALL" (
            text "fetch_messages"
            ∷ num 1
            ∷ text did_hash
            ∷ text (start_of options.start_id)
            ∷ num options.limit
            ∷ [])
          ∷ [])
    fetch_items session_id did_hash options.delete_policy results empty_response

  abbrev or_unparsed : {A : Type 0} → Option A → Result MediatorError A
  or_unparsed none = err (database_error "NA" "Couldn't parse message_list did({}) folder({}): {}")
  or_unparsed (some a) = ok a

  -- One entry of a folder. The `unwrap` and the two indices panic on data of another shape.
  unfoldable pub list_item : Folder → Option (List Reply) → Result MediatorError MessageListElement
  unfolding list_field tuples
  list_item folder (some (id ∷ field_list ∷ rest)) = then_ok (or_unparsed (to_text id)) λ stream_id.
      then_ok (or_unparsed (to_texts field_list)) λ kvs. ok (
        fields list_field (tuples kvs) (record (with_stream_id folder stream_id) {
          timestamp = parse_or_zero (first_part (split b'-' stream_id));
        }))
  list_item folder (some (id ∷ [])) = then_ok (or_unparsed (to_text id)) λ _. panic
  list_item folder _ = panic

  unfoldable pub list_items : Folder → List Reply → Result MediatorError (List MessageListElement)
  list_items folder [] = ok []
  list_items folder (item ∷ items) =
      then_ok (list_item folder (to_vec item))
        λ element. then_ok (list_items folder items) λ elements. ok (element ∷ elements)

  abbrev range_of : Option (String × String) → String × String
  range_of none = ("-", "+")
  range_of (some range) = range

  unfoldable pub list_messages :
      String → Folder → Option (String × String) → ℕ → M r (List MessageListElement)
  unfolding list_items
  list_messages did_hash folder range limit = do
    get_async_connection r
    let bounds = range_of range
    db_response ←
        query_async r some
          (database_error did_hash
            "Couldn't get message_list({}) from database for DID_hash {}: {}")
          (cmd "XRANGE" (
              text (folder_key folder did_hash)
              ∷ text bounds.0
              ∷ text bounds.1
              ∷ text "COUNT"
              ∷ num limit
              ∷ [])
            ∷ [])
    items ← lift (or_unparsed (to_vec db_response))
    lift (list_items folder items)
