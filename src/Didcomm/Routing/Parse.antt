-- ===== src/Didcomm/Routing/Parse.antt =====
-- Which messages are forward requests, and that a forward message is read back as it was built.
use affinidi_messaging.Common.{
  String, Bool, true, false, not, List, [], ◌∷◌, Option, none, some, ◌≡◌, refl, sym, ap, ◌∙◌, arith,
  ◌=ₛ◌, eq_iff, if◌then◌else◌,
}
use affinidi_messaging.Json.{Value, Fields, string, object, end, field, get}
use affinidi_messaging.Didcomm.Message.{
  Attachment, AttachmentData, json, attachment_new, Message, MessageBuilder, build, header,
}
use affinidi_messaging.Didcomm.Routing.{
  forward_msg_type, ParsedForward, text_of, next_of, json_of, json_attachment, parsed,
  try_parse_forward, with_headers, headers_of, forward_message,
}

-- A forward request: its type is that of the routing protocol, its body is an object whose member
-- `next` is a text, and its first attachment is JSON.
pub record IsForward (m : Message) (p : ParsedForward) : Type 0 where
  pub members : Fields
  pub attachment : Attachment
  pub others : List Attachment
  pub kind : m.type_ ≡ "https://didcomm.org/routing/2.0/forward"
  pub body : m.body ≡ object members
  pub next : get "next" members ≡ some (string p.next)
  pub attachments : m.attachments ≡ some (attachment ∷ others)
  pub jws : Option String
  pub forwarded : attachment.content ≡ json p.forwarded_msg jws
  pub whole : p.msg ≡ m

text_of-some : (v : Option Value) {next : String} → text_of v ≡ some next → v ≡ some (string next)
text_of-some (some (string t)) h = cc
text_of-some _ h = cc

next_of-some :
    (body : Value) {next : String}
    → next_of body ≡ some next
    → (fs : Fields) × (body ≡ object fs) × (get "next" fs ≡ some (string next))
next_of-some (object fs) h = (fs, refl, text_of-some (get "next" fs) h)
next_of-some _ h = cc

json_of-some :
    (d : AttachmentData) {v : Value} → json_of d ≡ some v → (jws : Option String) × (d ≡ json v jws)
json_of-some (json v jws) h = (jws, ap (λ x. json x jws) (injective h))
  where
    injective : {a b : Value} → Path (Option Value) (some a) (some b) → a ≡ b
    injective h = cc
json_of-some _ h = cc

json_attachment-some :
    (attachments : Option (List Attachment)) {v : Value}
    → json_attachment attachments ≡ some v
    → (a : Attachment) × (others : List Attachment) × (jws : Option String) × (attachments
        ≡ some (a ∷ others))
      × (a.content ≡ json v jws)
json_attachment-some (some (a ∷ others)) h =
    let (jws, e) = json_of-some a.content h in (a, others, jws, refl, e)
json_attachment-some _ h = cc

parsed-some :
    (m : Message) (next : Option String) (forwarded : Option Value) {p : ParsedForward}
    → parsed m next forwarded ≡ some p
    → (next ≡ some p.next) × (forwarded ≡ some p.forwarded_msg) × (p.msg ≡ m)
parsed-some m (some next) (some forwarded) h =
    let e = injective h in
    (ap (λ q. some q.next) e, ap (λ q. some q.forwarded_msg) e, sym (ap (λ q. q.msg) e))
  where
    injective : {a b : ParsedForward} → Path (Option ParsedForward) (some a) (some b) → a ≡ b
    injective h = cc
parsed-some m none forwarded h = cc
parsed-some m (some next) none h = cc

by_type :
    (m : Message) (p : ParsedForward) (b : Bool)
    → (m.type_ =ₛ forward_msg_type) ≡ b
    → (if not b then none else parsed m (next_of m.body) (json_attachment m.attachments)) ≡ some p
    → IsForward m p
by_type m p false e h = cc
by_type m p true e h =
    let (next, forwarded, whole) =
      parsed-some m (next_of m.body) (json_attachment m.attachments) h in
    let (fs, body, member) = next_of-some m.body next in
    let (a, others, jws, attachments, content) = json_attachment-some m.attachments forwarded in
    record {
      members = fs;
      attachment = a;
      others = others;
      kind = ground (arith, eq_iff m.type_ forward_msg_type);
      body = body;
      next = member;
      attachments = attachments;
      jws = jws;
      forwarded = content;
      whole = whole;
    }

IsForward-parses : (m : Message) (p : ParsedForward) → IsForward m p → try_parse_forward m ≡ some p
unfolding try_parse_forward
IsForward-parses m p f =
    let next : next_of m.body ≡ some p.next = ap next_of f.body ∙ ap text_of f.next in
    let forwarded : json_attachment m.attachments ≡ some p.forwarded_msg =
      ap json_attachment f.attachments ∙ ap json_of f.forwarded in
    let kind : (m.type_ =ₛ forward_msg_type) ≡ true =
      ground (arith, eq_iff m.type_ forward_msg_type, f.kind) in
    rw (kind, next, forwarded)
      (ap (λ x. some (record { msg = x; next = p.next; forwarded_msg = p.forwarded_msg }))
        (sym f.whole))

-- A message parses as a forward exactly when its type is that of forwards, its body is an object
-- with a text under `next` and its first attachment is JSON; the parts are this text, this JSON and
-- the message.
pub try_parse_forward-iff-IsForward :
    (m : Message) (p : ParsedForward)
    → (try_parse_forward m ≡ some p → IsForward m p)
      × (IsForward m p → try_parse_forward m ≡ some p)
unfolding try_parse_forward
try_parse_forward-iff-IsForward m p =
    (by_type m p (m.type_ =ₛ forward_msg_type) refl, IsForward-parses m p)

-- Extra headers leave the other parts of a message alone.
pub record SameParts (b c : MessageBuilder) : Type 0 where
  pub type_ : b.type_ ≡ c.type_
  pub body : b.body ≡ c.body
  pub to : b.to ≡ c.to
  pub attachments : b.attachments ≡ c.attachments

with_headers-SameParts :
    (hs : List (String × Value)) (b : MessageBuilder) → SameParts (with_headers hs b) b
with_headers-SameParts [] b = record { type_ = refl; body = refl; to = refl; attachments = refl }
with_headers-SameParts ((name, value) ∷ hs) b =
    let s = with_headers-SameParts hs (header name value b) in
    record { type_ = s.type_; body = s.body; to = s.to; attachments = s.attachments }

-- Whatever the extra headers, a forward message that was built parses again: it yields the next
-- hop and the forwarded JSON that it was built from.
pub try_parse_forward-forward_message :
    (id next : String) (forwarded : Value) (headers : Option (List (String × Value)))
    → try_parse_forward (forward_message id forwarded next headers)
      ≡ some (record {
        msg = forward_message id forwarded next headers;
        next = next;
        forwarded_msg = forwarded;
      })
unfolding forward_message get
try_parse_forward-forward_message id next forwarded headers =
    let start = build id forward_msg_type (object (field "next" (string next) end)) in
    let s = with_headers-SameParts (headers_of headers) start in
    IsForward-parses _ _ (record {
      members = field "next" (string next) end;
      attachment = attachment_new (json forwarded none);
      others = [];
      kind = s.type_;
      body = s.body;
      next = refl;
      attachments = rw s.attachments refl;
      jws = none;
      forwarded = refl;
      whole = refl;
    })
