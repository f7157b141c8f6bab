-- ===== src/Database/Elements.antt =====
-- affinidi-messaging-sdk/src/messages: what a list of stored messages holds, and how the mediator's
-- get.rs, fetch.rs and list.rs read it field by field.
use affinidi_messaging.Common.{
  ℕ, String, List, [], ◌∷◌, Option, none, some, ◌=ₛ◌, if◌then◌else◌, parse_u64,
}
use affinidi_messaging.Errors.{MediatorError}

-- affinidi-messaging-sdk/src/messages/mod.rs.
pub record MessageListElement : Type 0 where
  pub msg_id : String
  pub send_id : Option String
  pub receive_id : Option String
  pub size : ℕ
  pub timestamp : ℕ
  pub to_address : Option String
  pub from_address : Option String
  pub msg : Option String

-- An error in one of the answer's lists stands for the text that it prints.
pub record GetMessagesResponse : Type 0 where
  pub success : List MessageListElement
  pub get_errors : List (String × MediatorError)
  pub delete_errors : List (String × MediatorError)

pub data Folder : Type 0 where
  inbox outbox : Folder

pub data FetchDeletePolicy : Type 0 where
  optimistic on_receive do_not_delete : FetchDeletePolicy

pub record FetchOptions : Type 0 where
  pub limit : ℕ
  pub start_id : Option String
  pub delete_policy : FetchDeletePolicy

abbrev pub empty_element : MessageListElement
empty_element = record {
  msg_id = "";
  send_id = none;
  receive_id = none;
  size = 0;
  timestamp = 0;
  to_address = none;
  from_address = none;
  msg = none;
}

abbrev pub empty_response : GetMessagesResponse
empty_response = record { success = []; get_errors = []; delete_errors = [] }

-- Itertools' `tuples`: the pairs of neighbours, with no regard to an odd one at the end.
unfoldable pub tuples {ℓ} : {A : Type ℓ} → List A → List (A × A)
tuples [] = []
tuples (a ∷ []) = []
tuples (a ∷ b ∷ rest) = (a, b) ∷ tuples rest

abbrev number_or_zero : Option ℕ → ℕ
number_or_zero none = 0
number_or_zero (some n) = n

-- `v.parse().unwrap_or(0)`.
abbrev pub parse_or_zero : String → ℕ
parse_or_zero v = number_or_zero (parse_u64 v)

-- A field of a message's metadata, in get.rs.
unfoldable pub get_field : MessageListElement → String → String → MessageListElement
get_field m k v =
    if k =ₛ "MSG_ID"
    then record m { msg_id = v }
    else if k =ₛ "BYTES"
    then record m { size = parse_or_zero v }
    else if k =ₛ "FROM"
    then record m { from_address = some v }
    else if k =ₛ "TO"
    then record m { to_address = some v }
    else if k =ₛ "TIMESTAMP"
    then record m { timestamp = parse_or_zero v }
    else if k =ₛ "SEND_ID"
    then record m { send_id = some v }
    else if k =ₛ "RECEIVE_ID"
    then record m { receive_id = some v }
    else m

-- A field of a fetched message, in fetch.rs.
unfoldable pub fetch_field : MessageListElement → String → String → MessageListElement
fetch_field m k v =
    if k =ₛ "MSG_ID"
    then record m { msg_id = v }
    else if k =ₛ "META_SEND_ID"
    then record m { send_id = some v }
    else if k =ₛ "META_RECEIVE_ID"
    then record m { receive_id = some v }
    else if k =ₛ "META_BYTES"
    then record m { size = parse_or_zero v }
    else if k =ₛ "META_TIMESTAMP"
    then record m { timestamp = parse_or_zero v }
    else if k =ₛ "META_TO"
    then record m { to_address = some v }
    else if k =ₛ "FROM_DID"
    then record m { from_address = some v }
    else if k =ₛ "MSG"
    then record m { msg = some v }
    else m

-- A field of a list entry, in list.rs.
unfoldable pub list_field : MessageListElement → String → String → MessageListElement
list_field m k v =
    if k =ₛ "MSG_ID"
    then record m { msg_id = v }
    else if k =ₛ "BYTES"
    then record m { size = parse_or_zero v }
    else if k =ₛ "FROM"
    then record m { from_address = some v }
    else if k =ₛ "TO"
    then record m { to_address = some v }
    else m

abbrev pub fields :
    (MessageListElement → String → String → MessageListElement)
    → List (String × String)
    → MessageListElement
    → MessageListElement
fields set [] m = m
fields set ((k, v) ∷ kvs) m = fields set kvs (set m k v)
