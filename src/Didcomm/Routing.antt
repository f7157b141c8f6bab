-- ===== src/Didcomm/Routing.antt =====
-- affinidi-messaging-didcomm/src/protocols/routing: forward messages, and the onion of forwards
-- around an encrypted message.
pub mod Parse
pub mod Onion
pub mod Services
pub mod Tests
use affinidi_messaging.Common.{
  String, List, [], ◌∷◌, ◌++◌, reverse, zip, Option, none, some, not, ◌=ₛ◌, Result, ok, err, panic,
  then_ok, if◌then◌else◌,
}
use affinidi_messaging.Json.{Value, string, object, end, field, get}
use affinidi_messaging.Didcomm.Error.{ErrorKind, malformed, invalid_state}
use affinidi_messaging.Didcomm.Message.{
  Attachment, AttachmentData, attachment_new, json, Message, MessageBuilder, build, header,
  attachment, add_to, finalize,
}

abbrev pub forward_msg_type : String
forward_msg_type = "https://didcomm.org/routing/2.0/forward"

pub record ParsedForward : Type 0 where
  pub msg : Message
  pub next : String
  pub forwarded_msg : Value

-- The text under "next" of a body that is an object.
abbrev pub text_of : Option Value → Option String
text_of (some (string next)) = some next
text_of _ = none

abbrev pub next_of : Value → Option String
next_of (object fs) = text_of (get "next" fs)
next_of _ = none

abbrev pub json_of : AttachmentData → Option Value
json_of (json v jws) = some v
json_of _ = none

-- The JSON of the first attachment.
abbrev pub json_attachment : Option (List Attachment) → Option Value
json_attachment (some (a ∷ more)) = json_of a.content
json_attachment _ = none

abbrev pub parsed : Message → Option String → Option Value → Option ParsedForward
parsed m (some next) (some forwarded) =
    some (record { msg = m; next = next; forwarded_msg = forwarded })
parsed m _ _ = none

unfoldable pub try_parse_forward : Message → Option ParsedForward
unfolding get
try_parse_forward m =
    if not (m.type_ =ₛ forward_msg_type)
    then none
    else parsed m (next_of m.body) (json_attachment m.attachments)

abbrev with_headers : List (String × Value) → MessageBuilder → MessageBuilder
with_headers [] b = b
with_headers ((name, value) ∷ hs) b = with_headers hs (header name value b)

abbrev headers_of : Option (List (String × Value)) → List (String × Value)
headers_of none = []
headers_of (some hs) = hs

-- The forward message before it is serialised; `id` is the generated message id.
unfoldable pub forward_message : String → Value → String → Option (List (String × Value)) → Message
forward_message id forwarded next headers = finalize (
    add_to next (
      attachment (attachment_new (json forwarded none)) (
        with_headers (headers_of headers)
          (build id forward_msg_type (object (field "next" (string next) end))))))

-- serde_json, the id generator and `anoncrypt`, which the routing code calls.
pub record Outside : Type 0 where
  pub from_str : String → Option Value
  pub to_string : Message → Option String
  pub message_id : String → String
  pub anoncrypt : String → String → Result ErrorKind String

-- The crate's `kind`, on a result whose error text does not matter.
abbrev or_kind : {A : Type 0} → ErrorKind → Option A → Result ErrorKind A
or_kind kind none = err kind
or_kind kind (some a) = ok a

module _ (o : Outside) where
  open o use {from_str, to_string, message_id, anoncrypt}

  unfoldable pub build_forward_message :
      String → String → Option (List (String × Value)) → Result ErrorKind String
  build_forward_message forwarded_msg next headers =
      then_ok (or_kind malformed (from_str forwarded_msg)) λ forwarded.
        or_kind invalid_state
          (to_string (forward_message (message_id forwarded_msg) forwarded next headers))

  -- The loop over `tos.iter().zip(nexts.iter())`.
  unfoldable pub wrap_layers :
      Option (List (String × Value)) → List (String × String) → String → Result ErrorKind String
  wrap_layers headers [] msg = ok msg
  wrap_layers headers ((to, next) ∷ layers) msg =
      then_ok (build_forward_message msg next headers)
        λ forward. then_ok (anoncrypt to forward) (wrap_layers headers layers)

  -- `nexts.remove(0)` panics on an empty list.
  unfoldable pub wrap_in_forward :
      String → Option (List (String × Value)) → String → List String → Result ErrorKind String
  unfolding wrap_layers
  wrap_in_forward msg headers to [] = panic
  wrap_in_forward msg headers to (key ∷ keys) =
      wrap_layers headers (zip (reverse (key ∷ keys)) (reverse (keys ++ to ∷ []))) msg
