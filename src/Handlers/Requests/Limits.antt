-- ===== src/Handlers/Requests/Limits.antt =====
-- The limits on a request, and what a delete reports.
use affinidi_messaging.Common.{
  ℕ, ltb, not, ◌||◌, true, false, >>=-eq-ok, ◌≤◌, String, Bool, List, [], ◌∷◌, ◌++◌, ◌≡◌, arith,
  eq_iff, ok, refl, sym, ap, ◌∙◌, ensure, lift, pure, some-injective, ok-injective, Option, ◌=ₛ◌,
  none, some,
}
use affinidi_messaging.Errors.{MediatorError, Session}
use affinidi_messaging.Redis.{Redis, World, M}
use affinidi_messaging.Database.Elements.{
  MessageListElement, GetMessagesResponse, Folder, FetchOptions,
}
use affinidi_messaging.Database.Messages.{fetch_messages, list_messages}
use affinidi_messaging.Handlers.Requests.{
  SuccessResponse, DeleteMessageResponse, start_id_ok, delete_each, inbox_fetch_handler,
  message_list_handler, success,
}

-- Which ids of a request were deleted and which failed, in the order of the request.
pub data Report : List String → List String → List (String × MediatorError) → Type 0 where
  finished : Report [] [] []
  deleted :
      {ids ok_ids : List String} {failures : List (String × MediatorError)}
      → (id : String) → Report ids ok_ids failures
      → Report (id ∷ ids) (id ∷ ok_ids) failures
  failed :
      {ids ok_ids : List String} {failures : List (String × MediatorError)}
      → (id : String) (e : MediatorError) → Report ids ok_ids failures
      → Report (id ∷ ids) ok_ids ((id, e) ∷ failures)

module _ (r : Redis) where
  bounds_of :
      (n : ℕ) (e : MediatorError)
      → ensure (not (ltb n 1 || ltb 100 n)) e ≡ ok tt
      → (1 ≤ n) × (n ≤ 100)
  bounds_of n e h = ground arith

  ensure-eq-ok : (b : Bool) (e : MediatorError) → ensure b e ≡ ok tt → b ≡ true
  ensure-eq-ok true e h = refl
  ensure-eq-ok false e h = cc

  start_id_ok-eq-true :
      (is_match : String → Bool) (o : Option String) (id : String)
      → start_id_ok r is_match o ≡ true
      → o ≡ some id
      → is_match id ≡ true
  start_id_ok-eq-true is_match none id h same = cc
  start_id_ok-eq-true is_match (some start) id h same =
      ap is_match (some-injective id start (sym same)) ∙ h

  -- What a handler answers with is what its last database call returned.
  answers :
      {C : Type 0} (session : Session) (f : M r C) (c : C) (a : SuccessResponse C)
      (w w₁ w₂ w' : World r.Db)
      → w ≡ w₁
      → f w₁ ≡ (ok c, w₂)
      → pure {E = MediatorError} (success session c) w₂ ≡ (ok a, w')
      → f w ≡ (ok a.content, w')
  answers session f c a w w₁ w₂ w' same ran done =
      let content = ap (λ x. x.content) (ok-injective (success session c) a (ap (λ q. q.0) done)) in
      ap f same ∙ ran ∙ (λ i. (ok (content i), (done i).1))

  -- A fetch that succeeds asked for at least 1 and at most 100 messages, from a start that has the
  -- required form if there is one, and its content is what the database fetched for the session's
  -- own DID.
  pub inbox_fetch_handler-checks :
      (is_match : String → Bool) (session : Session) (body : FetchOptions)
      (a : SuccessResponse GetMessagesResponse) (w w' : World r.Db)
      → inbox_fetch_handler r is_match session body w ≡ (ok a, w')
      → (1 ≤ body.limit)
        × (body.limit ≤ 100)
        × ((id : String) → body.start_id ≡ some id → is_match id ≡ true)
        × (fetch_messages r session.session_id session.did_hash body w ≡ (ok a.content, w'))
  unfolding inbox_fetch_handler
  inbox_fetch_handler-checks is_match session body a w w' h =
      let (u, w₁, limited, h₁) =
        >>=-eq-ok (lift (ensure (not (ltb body.limit 1 || ltb 100 body.limit)) _)) _ w h in
      let (v, w₂, started, h₂) =
        >>=-eq-ok (lift (ensure (start_id_ok r is_match body.start_id) _)) _ w₁ h₁ in
      let (results, w₃, fetched, h₃) =
        >>=-eq-ok (fetch_messages r session.session_id session.did_hash body) _ w₂ h₂ in
      let (low, high) = bounds_of body.limit _ (ap (λ q. q.0) limited) in
      (
        low,
        high,
        (λ id same.
            start_id_ok-eq-true is_match body.start_id id (ensure-eq-ok _ _ (ap (λ q. q.0) started))
              same),
        answers session (fetch_messages r session.session_id session.did_hash body) results a w w₂
            w₃ w' (ap (λ q. q.1) limited ∙ ap (λ q. q.1) started) fetched h₃,
      )

  -- A list that succeeds is of the session's own folder, and its content is what the database
  -- lists for it, up to the configured number.
  pub message_list_handler-own :
      (max : ℕ) (session : Session) (did_hash : String) (folder : Folder)
      (a : SuccessResponse (List MessageListElement)) (w w' : World r.Db)
      → message_list_handler r max session did_hash folder w ≡ (ok a, w')
      → (did_hash ≡ session.did_hash)
        × (list_messages r session.did_hash folder none max w ≡ (ok a.content, w'))
  unfolding message_list_handler
  message_list_handler-own max session did_hash folder a w w' h =
      let (u, w₁, allowed, h₁) = >>=-eq-ok (lift (ensure (session.did_hash =ₛ did_hash) _)) _ w h in
      let (messages, w₂, listed, h₂) =
        >>=-eq-ok (list_messages r did_hash folder none max) _ w₁ h₁ in
      let own = (eq_iff session.did_hash did_hash).0 (ensure-eq-ok _ _ (ap (λ q. q.0) allowed)) in
      (
        sym own,
        ap (λ d. list_messages r d folder none max w) own
            ∙ answers session (list_messages r did_hash folder none max) messages a w w₁ w₂ w'
                (ap (λ q. q.1) allowed) listed h₂,
      )

  abbrev ReportsEach : Session → List String → DeleteMessageResponse → World r.Db → Type 0
  ReportsEach session ids acc w =
      (w' : World r.Db) × (ok_ids : List String) × (failures : List (String × MediatorError))
      × (delete_each r session ids acc w
          ≡ (ok (record { success = acc.success ++ ok_ids; errors = acc.errors ++ failures }), w'))
      × Report ids ok_ids failures
