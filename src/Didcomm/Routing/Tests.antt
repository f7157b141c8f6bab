-- ===== src/Didcomm/Routing/Tests.antt =====
-- A route of one mediator, and forward messages at given values.
use affinidi_messaging.Common.{
  String, [], ◌∷◌, Option, none, some, ◌≡◌, refl, sym, ap, ok, ite, if_pos, if_neg, String_discrete,
  zip, ℕ_discrete,
}
use affinidi_messaging.Json.{string, Value-discrete}
use affinidi_messaging.Didcomm.Message.{Message, AttachmentData, Attachment}
use affinidi_messaging.Didcomm.Routing.{
  Outside, ParsedForward, try_parse_forward, forward_message, build_forward_message,
  wrap_in_forward,
}
use affinidi_messaging.Didcomm.Routing.Parse.{
  IsForward, try_parse_forward-iff-IsForward, try_parse_forward-forward_message,
}
use affinidi_messaging.Didcomm.Routing.Onion.{Route, wrap_in_forward-Route}

AttachmentData-discrete : Discrete AttachmentData
AttachmentData-discrete = hlevel (ℕ_discrete, String_discrete, Value-discrete)

Attachment-discrete : Discrete Attachment
Attachment-discrete = hlevel (ℕ_discrete, String_discrete, AttachmentData-discrete)

Message-discrete : Discrete Message
Message-discrete = hlevel (ℕ_discrete, String_discrete, Value-discrete, Attachment-discrete)

-- A forward of "hi" to bob, with no extra headers.
abbrev to_bob : Message
to_bob = forward_message "id-1" (string "hi") "bob" none

-- An outside that serialises this message only.
to_string_one : Message → Option String
to_string_one m = ite (Message-discrete m to_bob) (some "sealed") none

to_string_one_bob : to_string_one to_bob ≡ some "sealed"
unfolding to_string_one
to_string_one_bob =
    if_pos {C = Option String} (Message-discrete to_bob to_bob) refl (some "sealed") none

to_string_one_only : (m : Message) (text : String) → to_string_one m ≡ some text → m ≡ to_bob
unfolding to_string_one
to_string_one_only m text h = elim (Message-discrete m to_bob) [
  | yes same ↦ same
  | no other ↦
      let missed =
        if_neg {C = Option String} (Message-discrete m to_bob) other (some "sealed") none in
      cc
]

abbrev outside : Outside
outside = record {
  from_str = λ s. some (string s);
  to_string = to_string_one;
  message_id = λ s. "id-1";
  anoncrypt = λ key text. ok text;
}

wrapped : wrap_in_forward outside "hi" none "bob" ("mediator" ∷ []) ≡ ok "sealed"
unfolding wrap_in_forward build_forward_message zip
wrapped = rw to_string_one_bob

wrap_in_forward-Route_example :
    Route (λ key w. some to_bob) outside.from_str ("mediator" ∷ []) "bob" "hi" "sealed"
wrap_in_forward-Route_example =
    wrap_in_forward-Route outside none (λ key w. some to_bob)
      (λ key text w m written sealed. ap some (sym (to_string_one_only m text written)))
      ("mediator" ∷ []) "bob" "hi" "sealed" wrapped

abbrev parsed_bob : ParsedForward
parsed_bob = record { msg = to_bob; next = "bob"; forwarded_msg = string "hi" }

try_parse_forward-forward_message_example : try_parse_forward to_bob ≡ some parsed_bob
try_parse_forward-forward_message_example =
    try_parse_forward-forward_message "id-1" "bob" (string "hi") none

try_parse_forward-iff-IsForward_example :
    (try_parse_forward to_bob ≡ some parsed_bob → IsForward to_bob parsed_bob)
    × (IsForward to_bob parsed_bob → try_parse_forward to_bob ≡ some parsed_bob)
try_parse_forward-iff-IsForward_example = try_parse_forward-iff-IsForward to_bob parsed_bob
