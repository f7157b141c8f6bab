-- ===== src/Database/Messages/Tests.antt =====
-- Reads over a server with one message, from `a`, whose answer has two parts.
use affinidi_messaging.Common.{
  ℕ, suc, String, true, false, List, [], ◌∷◌, Option, none, some, ◌≡◌, ◌≢◌, refl, arith, eq_iff,
  Result, ok,
}
use affinidi_messaging.Errors.{MediatorError}
use affinidi_messaging.Redis.{Redis, World, get_async_connection, query_async}
use affinidi_messaging.Database.Elements.{
  MessageListElement, FetchOptions, do_not_delete, optimistic, inbox, get_field, list_field, tuples,
  empty_element,
}
use affinidi_messaging.Database.Messages.{
  owned, get_message, fetch_messages, list_item, list_items, update_send_stats,
}
use affinidi_messaging.Errors.{internal_error}
use affinidi_messaging.Database.Elements.{fetch_field}
use affinidi_messaging.Database.Messages.Access.{IsParty, get_message-IsParty, fetch_messages-keeps}

-- The parts: a text, and a list of fields.
data Part : Type 0 where
  body meta : Part

abbrev text_in : Part → Option String
text_in body = some "1-0"
text_in meta = none

abbrev texts_in : Part → Option (List String)
texts_in body = none
texts_in meta = some ("MSG_ID" ∷ "1" ∷ "FROM" ∷ "a" ∷ [])

abbrev keeper : Redis
keeper = record {
  Db = ℕ;
  Reply = Part;
  connects = λ d. true;
  query = λ cs d. (some meta, suc d);
  is_nil = λ v. false;
  to_text = text_in;
  to_vec = λ v. some (body ∷ meta ∷ []);
  to_texts = texts_in;
  to_map = λ v. none;
  to_bool = λ v. none;
  to_number = λ v. none;
}

abbrev start : World ℕ
start = record { db = 0; task_runs = false; updates = [] }

abbrev element_in : Result MediatorError MessageListElement → MessageListElement
element_in (ok m) = m
element_in _ = empty_element

abbrev run : Result MediatorError MessageListElement × World ℕ
run = get_message keeper "a" "1" start

ran : get_message keeper "a" "1" start ≡ (ok (element_in run.0), run.1)
unfolding get_message owned get_field tuples update_send_stats get_async_connection query_async
ran = refl

a-ne-empty : ◌≢◌ {A = String} "a" ""
a-ne-empty h = ground (arith, eq_iff "a" "")

get_message-IsParty_example : IsParty "a" (element_in run.0)
get_message-IsParty_example =
    get_message-IsParty keeper "a" "1" (element_in run.0) start run.1 a-ne-empty ran

abbrev options : FetchOptions
options = record { limit = 2; start_id = none; delete_policy = do_not_delete }

do_not_delete-ne-optimistic : do_not_delete ≢ optimistic
do_not_delete-ne-optimistic h = cc

fetch_messages-keeps_example : fetch_messages keeper "s" "a" options start ≡ (
  ok (record {
    success = record empty_element { msg_id = "1" } ∷ [];
    get_errors = ("", internal_error "" "{}") ∷ [];
    delete_errors = [];
  }),
  record start { db = 1 },
)
unfolding tuples fetch_field
fetch_messages-keeps_example =
    fetch_messages-keeps keeper "s" "a" options meta (body ∷ meta ∷ []) 1 start
      do_not_delete-ne-optimistic refl refl refl

abbrev elements_in : Result MediatorError (List MessageListElement) → List MessageListElement
elements_in (ok ms) = ms
elements_in _ = []

abbrev listed : List MessageListElement
listed = elements_in (list_items keeper inbox (body ∷ meta ∷ []))

listing : list_items keeper inbox (body ∷ meta ∷ []) ≡ ok listed
unfolding list_items list_item list_field tuples
listing = refl
