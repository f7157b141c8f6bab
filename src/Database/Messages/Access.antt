-- ===== src/Database/Messages/Access.antt =====
-- Who can read and remove what, and what a fetch returns.
use affinidi_messaging.Common.{
  suc, String, Bool, true, ◌||◌, List, [], ◌∷◌, ◌++◌, length, Option, none, some, ◌≡◌, ◌≢◌, ◌⊎◌,
  inl, inr, refl, sym, ap, ◌∙◌, subst, arith, eq_iff, ok, then_ok-eq-ok, err-ne-ok, ok-injective,
  lift, >>=-eq-ok, handle-pure-eq-ok, Option-cases, Bool-cases,
}
use affinidi_messaging.Errors.{MediatorError, internal_error}
use affinidi_messaging.Common.{append-nil, append_assoc}
use affinidi_messaging.Redis.{
  Redis, World, as_i64, cmd, text, num, get_async_connection, query_async,
}
use affinidi_messaging.Database.Elements.{
  MessageListElement, GetMessagesResponse, FetchOptions, FetchDeletePolicy, optimistic, on_receive,
  do_not_delete, empty_response, Folder, tuples, fields, fetch_field, empty_element,
}
use affinidi_messaging.Database.Messages.{
  is_address, owned, get_message, body_of, delete_if_asked, fetch_items, fetch_messages, list_item,
  list_items, update_send_stats, start_of, pair_of,
}

-- A DID has a part in a message that it sent or that it is sent.
abbrev pub IsParty : String → MessageListElement → Type 0
IsParty did_hash m = (m.from_address ≡ some did_hash) ⊎ (m.to_address ≡ some did_hash)

is_address-some :
    (did_hash : String) (o : Option String)
    → did_hash ≢ ""
    → is_address did_hash o ≡ true
    → o ≡ some did_hash
is_address-some did_hash none real h = ground (arith, eq_iff did_hash "")
is_address-some did_hash (some a) real h = ground (arith, eq_iff did_hash a)

or-eq-true : (a b : Bool) → (a || b) ≡ true → (a ≡ true) ⊎ (b ≡ true)
or-eq-true a b h = ground arith

module _ (r : Redis) where
  owned-IsParty :
      (did_hash : String) (m m' : MessageListElement) (w w' : World r.Db)
      → did_hash ≢ ""
      → owned r did_hash m w ≡ (ok m', w')
      → IsParty did_hash m'
  unfolding owned
  owned-IsParty did_hash m m' w w' real h =
      elim (Bool-cases (is_address did_hash m.from_address || is_address did_hash m.to_address)) [
        | inl party ↦
            subst (IsParty did_hash)
              (sym
                (handle-pure-eq-ok (update_send_stats r (as_i64 m.size)) m m' w w' (rw party at h)))
              (elim (or-eq-true _ _ party) [
                | inl sent ↦ inl (is_address-some did_hash m.from_address real sent)
                | inr received ↦ inr (is_address-some did_hash m.to_address real received)
              ])
        | inr stranger ↦ absurd (err-ne-ok (ap (λ q. q.0) (rw stranger at h)))
      ]

  -- A message that is got for the hash of a DID, which is no empty text, names that hash as its
  -- sender or as its addressee.
  pub get_message-IsParty :
      (did_hash msg_id : String) (m : MessageListElement) (w w' : World r.Db)
      → did_hash ≢ ""
      → get_message r did_hash msg_id w ≡ (ok m, w')
      → IsParty did_hash m
  unfolding get_message
  get_message-IsParty did_hash msg_id m w w' real h =
      let (_, w₁, _, h₁) = >>=-eq-ok (get_async_connection r) _ w h in
      let ((v, meta), w₂, _, h₂) =
        >>=-eq-ok (query_async r (λ v. pair_of r (r.to_vec v)) _ _) _ w₁ h₁ in
      let (body, w₃, _, h₃) = >>=-eq-ok (lift (body_of r did_hash v)) _ w₂ h₂ in
      owned-IsParty did_hash _ m w₃ w' real h₃

  -- The messages of the items that can be read, in order, and an error for each that cannot.
  abbrev pub readable : List r.Reply → List MessageListElement
  readable [] = []
  readable (item ∷ items) = elim (r.to_texts item) [
    | none ↦ readable items
    | some kvs ↦ fields fetch_field (tuples kvs) empty_element ∷ readable items
  ]

  abbrev pub unreadable : List r.Reply → List (String × MediatorError)
  unreadable [] = []
  unreadable (item ∷ items) = elim (r.to_texts item) [
    | none ↦ ("", internal_error "" "{}") ∷ unreadable items
    | some kvs ↦ unreadable items
  ]

  keeps :
      (sid did_hash msg_id : String) (policy : FetchDeletePolicy) (m : GetMessagesResponse)
      (w : World r.Db)
      → policy ≢ optimistic
      → delete_if_asked r sid did_hash policy msg_id m w ≡ (ok m, w)
  unfolding delete_if_asked
  keeps sid did_hash msg_id optimistic m w other = absurd (other refl)
  keeps sid did_hash msg_id on_receive m w other = refl
  keeps sid did_hash msg_id do_not_delete m w other = refl

  fetch_items_total :
      (sid did_hash : String) (policy : FetchDeletePolicy) (items : List r.Reply)
      (m : GetMessagesResponse) (w : World r.Db)
      → policy ≢ optimistic
      → fetch_items r sid did_hash policy items m w ≡ (
        ok (record m {
          success = m.success ++ readable items;
          get_errors = m.get_errors ++ unreadable items;
        }),
        w,
      )
  unfolding fetch_items
  fetch_items_total sid did_hash policy [] m w other =
      rw (append-nil m.success, append-nil m.get_errors) refl
  fetch_items_total sid did_hash policy (item ∷ items) m w other =
      elim (Option-cases (r.to_texts item)) [
        | inl unread ↦
            let e : String × MediatorError = ("", internal_error "" "{}") in
            let m₁ = record m { get_errors = m.get_errors ++ e ∷ [] } in
            rw
              (
                fetch_items,
                readable,
                unreadable,
                unread,
                fetch_items_total sid did_hash policy items m₁ w other,
                append_assoc m.get_errors (e ∷ []) (unreadable items),
              )
              refl
        | inr (kvs, read) ↦
            let element = fields fetch_field (tuples kvs) empty_element in
            let m₁ = record m { success = m.success ++ element ∷ [] } in
            rw
              (
                fetch_items,
                readable,
                unreadable,
                read,
                keeps sid did_hash element.msg_id policy m w other,
                fetch_items_total sid did_hash policy items m₁ w other,
                append_assoc m.success (element ∷ []) (readable items),
              )
              refl
      ]

  -- Where the connection is made and the server answers with a list, a fetch with any policy but
  -- Optimistic succeeds, and the script's call is all that it does to the database. What it returns
  -- is the message of every item of the list that can be read, in order, and an error for every
  -- other item; no error tells of a deletion.
  pub fetch_messages-keeps :
      (sid did_hash : String) (options : FetchOptions) (reply : r.Reply) (items : List r.Reply)
      (d : r.Db) (w : World r.Db)
      → options.delete_policy ≢ optimistic
      → r.connects w.db ≡ true
      → r.query
          (cmd "FCALL" (
              text "fetch_messages"
              ∷ num 1
              ∷ text did_hash
              ∷ text (start_of options.start_id)
              ∷ num options.limit
              ∷ [])
            ∷ [])
          w.db
        ≡ (some reply, d)
      → r.to_vec reply ≡ some items
      → fetch_messages r sid did_hash options w ≡ (
        ok (record { success = readable items; get_errors = unreadable items; delete_errors = [] }),
        record w { db = d },
      )
  unfolding fetch_messages get_async_connection query_async
  fetch_messages-keeps sid did_hash options reply items d w other up answered read =
      rw (up, answered, read)
        (fetch_items_total sid did_hash options.delete_policy items empty_response
          (record w { db = d }) other)

  -- A list that is read has one element for each entry of the answer.
  pub list_items-length :
      (folder : Folder) (items : List r.Reply) (elements : List MessageListElement)
      → list_items r folder items ≡ ok elements
      → length elements ≡ length items
  unfolding list_items
  list_items-length folder [] elements h = ap length (ok-injective elements [] (sym h))
  list_items-length folder (item ∷ items) elements h =
      let (element, _, h₁) = then_ok-eq-ok (list_item r folder (r.to_vec item)) _ h in
      let (rest, tail, h₂) = then_ok-eq-ok (list_items r folder items) _ h₁ in
      ap length (ok-injective elements _ (sym h₂))
      ∙ ap suc (list_items-length folder items rest tail)
