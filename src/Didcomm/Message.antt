-- ===== src/Didcomm/Message.antt =====
-- affinidi-messaging-didcomm/src/message/message.rs and attachment.rs: the plaintext message and
-- its builder. `HashMap` is an association list.
use affinidi_messaging.Common.{
  ℕ, String, List, [], ◌∷◌, ◌++◌, Option, none, some, insert, ◌=ₛ◌, Result, ok, err, if◌then◌else◌,
}
use affinidi_messaging.Json.{Value}
use affinidi_messaging.Didcomm.Error.{ErrorKind}

pub data AttachmentData : Type 0 where
  base64 : String → Option String → AttachmentData
  json : Value → Option String → AttachmentData
  links : List String → String → Option String → AttachmentData
  rkyv bytes : List ℕ → AttachmentData

pub record Attachment : Type 0 where
  pub content : AttachmentData
  pub id : Option String
  pub description : Option String
  pub filename : Option String
  pub media_type : Option String
  pub format : Option String
  pub lastmod_time : Option ℕ
  pub byte_count : Option ℕ

-- `AttachmentBuilder` has the fields of `Attachment`, and `finalize` copies them.
abbrev pub attachment_new : AttachmentData → Attachment
attachment_new content = record {
  content = content;
  id = none;
  description = none;
  filename = none;
  media_type = none;
  format = none;
  lastmod_time = none;
  byte_count = none;
}

pub record Message : Type 0 where
  pub id : String
  pub typ : String
  pub type_ : String
  pub body : Value
  pub from : Option String
  pub to : Option (List String)
  pub thid : Option String
  pub pthid : Option String
  pub extra_headers : List (String × Value)
  pub created_time : Option ℕ
  pub expires_time : Option ℕ
  pub from_prior : Option String
  pub attachments : Option (List Attachment)

abbrev pub plaintext_typ : String
plaintext_typ = "application/didcomm-plain+json"

-- `Err` unless `typ` is the plaintext type.
unfoldable pub validate : Message → Result ErrorKind Message
validate m = if m.typ =ₛ plaintext_typ then ok m else err ErrorKind.malformed

pub record MessageBuilder : Type 0 where
  pub id : String
  pub type_ : String
  pub body : Value
  pub from : Option String
  pub to : Option (List String)
  pub thid : Option String
  pub pthid : Option String
  pub extra_headers : List (String × Value)
  pub created_time : Option ℕ
  pub expires_time : Option ℕ
  pub from_prior : Option String
  pub attachments : Option (List Attachment)

-- `Message::build`.
abbrev pub build : String → String → Value → MessageBuilder
build id type_ body = record {
  id = id;
  type_ = type_;
  body = body;
  from = none;
  to = none;
  thid = none;
  pthid = none;
  extra_headers = [];
  created_time = none;
  expires_time = none;
  from_prior = none;
  attachments = none;
}

-- `to` and `to_many` put new items behind those that are there; so do the attachments.
abbrev extend : {A : Type 0} → Option (List A) → List A → Option (List A)
extend none new = some new
extend (some old) new = some (old ++ new)

abbrev pub add_to : String → MessageBuilder → MessageBuilder
add_to to b = record b { to = extend b.to (to ∷ []) }

abbrev pub to_many : List String → MessageBuilder → MessageBuilder
to_many to b = record b { to = extend b.to to }

abbrev pub set_from : String → MessageBuilder → MessageBuilder
set_from from b = record b { from = some from }

abbrev pub set_thid : String → MessageBuilder → MessageBuilder
set_thid thid b = record b { thid = some thid }

abbrev pub header : String → Value → MessageBuilder → MessageBuilder
header key value b = record b { extra_headers = insert key value b.extra_headers }

abbrev pub set_created_time : ℕ → MessageBuilder → MessageBuilder
set_created_time time b = record b { created_time = some time }

abbrev pub set_expires_time : ℕ → MessageBuilder → MessageBuilder
set_expires_time time b = record b { expires_time = some time }

abbrev pub attachment : Attachment → MessageBuilder → MessageBuilder
attachment a b = record b { attachments = extend b.attachments (a ∷ []) }

abbrev pub add_attachments : List Attachment → MessageBuilder → MessageBuilder
add_attachments as' b = record b { attachments = extend b.attachments as' }

abbrev pub finalize : MessageBuilder → Message
finalize b = record {
  id = b.id;
  typ = plaintext_typ;
  type_ = b.type_;
  body = b.body;
  from = b.from;
  to = b.to;
  thid = b.thid;
  pthid = b.pthid;
  extra_headers = b.extra_headers;
  created_time = b.created_time;
  expires_time = b.expires_time;
  from_prior = b.from_prior;
  attachments = b.attachments;
}
