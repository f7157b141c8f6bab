-- ===== src/Messages/Pickup/Replies.antt =====
-- What the Message Pickup handlers answer.
use affinidi_messaging.Common.{
  eq_iff, ℕ, String, Bool, true, false, List, [], ◌∷◌, ◌++◌, Option, none, some, ◌≡◌, refl, sym, ap,
  ◌∙◌, inl, inr, arith, ok, lift, >>=-eq-ok, unwrap-eq-ok, err-ne-ok, ok-injective, Bool-cases,
  add_u64,
}
use affinidi_messaging.Errors.{Session}
use affinidi_messaging.Didcomm.Message.{Message}
use affinidi_messaging.Redis.{
  Redis, World, get_async_connection, get_async_connection-eq-ok, query_async, query_async-eq-ok,
}
use affinidi_messaging.Tasks.Update.{StreamingUpdate, StreamingUpdateState, start, stop}
use affinidi_messaging.Database.Elements.{tuples}
use affinidi_messaging.Messages.{Outside, Clock, Config, message, ProcessMessageResponse}
use affinidi_messaging.Messages.Pickup.{validate_msg, thread_of}
use affinidi_messaging.Messages.Pickup.Status.{
  StatusReply, with_wait, start_status, status_field, status_fields, or_empty, to_value,
  final_status, generate_status_reply,
}
use affinidi_messaging.Messages.Pickup.Handlers.{
  recipient_hash, validated, send_update, switch, live_body, status_request, toggle_live_delivery,
}

-- A status message from the mediator to the session's DID alone, in the request's thread, that
-- expires 300 seconds after it was made.
pub record IsStatus (mediator_did : String) (now : ℕ) (session : Session) (thid : String)
    (status : StatusReply) (m : Message) : Type 0 where
  pub to : m.to ≡ some (session.did ∷ [])
  pub from : m.from ≡ some mediator_did
  pub thread : m.thid ≡ some thid
  pub type_ : m.type_ ≡ "https://didcomm.org/messagepickup/3.0/status"
  pub created : m.created_time ≡ some now
  pub expires : m.expires_time ≡ some (add_u64 now 300)
  pub body : m.body ≡ to_value status
  pub recipient : status.recipient_did ≡ session.did

-- A reply that is not stored, and holds such a message.
pub record IsReply (mediator_did : String) (now : ℕ) (session : Session) (thid : String)
    (force : Bool) (status : StatusReply) (answer : Option ProcessMessageResponse) : Type 0 where
  pub m : Message
  pub holds :
      answer
      ≡ some (record {
        store_message = false;
        force_live_delivery = force;
        message_response = message m;
      })
  pub is_status : IsStatus mediator_did now session thid status m

module _ (r : Redis) where
  status_field-recipient_did :
      (s : StatusReply) (k : String) (v : r.Reply)
      → (status_field r s k v).recipient_did ≡ s.recipient_did
  unfolding status_field
  status_field-recipient_did s k v = ground arith

  status_fields-recipient_did :
      (kvs : List (r.Reply × r.Reply)) (s : StatusReply)
      → (status_fields r kvs s).recipient_did ≡ s.recipient_did
  unfolding status_fields
  status_fields-recipient_did [] s = refl
  status_fields-recipient_did ((k, v) ∷ kvs) s =
      status_fields-recipient_did kvs (status_field r s (or_empty (r.to_text k)) v)
      ∙ status_field-recipient_did s (or_empty (r.to_text k)) v

  with_wait-recipient_did :
      (now : ℕ) (o : Option ℕ) (s : StatusReply)
      → (with_wait now o s).recipient_did ≡ s.recipient_did
  with_wait-recipient_did now none s = refl
  with_wait-recipient_did now (some t) s = refl

  final_status-recipient_did :
      (response : List r.Reply) (did : String) (now : ℕ) (override : Option Bool)
      → (final_status r response did now override).recipient_did ≡ did
  unfolding final_status
  final_status-recipient_did response did now override =
      with_wait-recipient_did now _ _
      ∙ status_fields-recipient_did (tuples response) (start_status did)

  with_wait-live_delivery :
      (now : ℕ) (o : Option ℕ) (s : StatusReply)
      → (with_wait now o s).live_delivery ≡ s.live_delivery
  with_wait-live_delivery now none s = refl
  with_wait-live_delivery now (some t) s = refl

  final_status-live_delivery :
      (response : List r.Reply) (did : String) (now : ℕ) (b : Bool)
      → (final_status r response did now (some b)).live_delivery ≡ b
  unfolding final_status
  final_status-live_delivery response did now b = with_wait-live_delivery now _ _

  -- Inversion of the reply: the server answered with a list, and the status is read out of it.
  abbrev pub Replies :
      Outside
      → String
      → ℕ
      → Session
      → String
      → Bool
      → Option Bool
      → Option ProcessMessageResponse
      → World r.Db
      → World r.Db
      → Type 0
  Replies o mediator_did now session thid force override answer w w' =
      (response : List r.Reply) × IsReply mediator_did now session thid force
        (final_status r response session.did now override) answer
      × (w'.updates ≡ w.updates)

  generate_status_reply-eq-ok :
      (o : Outside) (mediator_did : String) (now : ℕ) (session : Session) (did_hash thid : String)
      (force : Bool) (override : Option Bool) (answer : Option ProcessMessageResponse)
      (w w' : World r.Db)
      → generate_status_reply r o mediator_did now session did_hash thid force override w
        ≡ (ok answer, w')
      → Replies o mediator_did now session thid force override answer w w'
  unfolding generate_status_reply
  generate_status_reply-eq-ok o mediator_did now session did_hash thid force override answer w w'
        h =
      let (_, w₁, connected, h₁) = >>=-eq-ok (get_async_connection r) _ w h in
      let (response, w₂, asked, h₂) = >>=-eq-ok (query_async r r.to_vec _ _) _ w₁ h₁ in
      let (v, _, _, same) = query_async-eq-ok r _ _ _ w₁ w₂ asked in
      (
        response,
        record {
          m = _;
          holds = ok-injective answer _ (ap (λ q. q.0) (sym h₂));
          is_status = record {
            to = refl;
            from = refl;
            thread = refl;
            type_ = refl;
            created = refl;
            expires = refl;
            body = refl;
            recipient = final_status-recipient_did response session.did now override;
          };
        },
        ap (λ q. q.1.updates) (sym h₂)
            ∙ ap (λ (s : World r.Db). s.updates) same
            ∙ ap (λ (s : World r.Db). s.updates) (get_async_connection-eq-ok r w w₁ connected),
      )

module _ (r : Redis) (o : Outside) (config : Config) (clock : Clock) where
  validated-eq-ok :
      (msg : Message) (session : Session) (w w' : World r.Db) {a : Unit {0}}
      → validated r o config clock msg session w ≡ (ok a, w')
      → (validate_msg clock.on_validate config.mediator_did msg session ≡ ok tt) × (w' ≡ w)
  validated-eq-ok msg session w w' h =
      let valid =
        unwrap-eq-ok (lift (validate_msg clock.on_validate config.mediator_did msg session)) _ w w'
          h in
      (ap (λ q. q.0) valid, ap (λ q. q.1) (sym valid))

  recipient_hash-eq-ok :
      (session : Session) (body : Option (Option String)) (h d : String)
      → recipient_hash o session body ≡ ok h
      → body ≡ some (some d)
      → d ≡ session.did
  recipient_hash-eq-ok session body h d found asked =
      ground (arith, eq_iff d session.did, rw asked at found)

  -- A status request that is answered is valid, a DID that it names is the session's own, and the
  -- answer is a status in its thread; no update is sent to the streaming task.
  pub status_request-answers :
      (msg : Message) (session : Session) (answer : Option ProcessMessageResponse)
      (w w' : World r.Db)
      → status_request r o config clock msg session w ≡ (ok answer, w')
      → (validate_msg clock.on_validate config.mediator_did msg session ≡ ok tt)
        × ((d : String) → o.status_request msg.body ≡ some (some d) → d ≡ session.did)
        × Replies r o config.mediator_did clock.on_reply session
            (thread_of msg msg.thid)
            false
            none
            answer
            w
            w'
  unfolding status_request
  status_request-answers msg session answer w w' h =
      let (_, w₁, checked, h₁) = >>=-eq-ok (validated r o config clock msg session) _ w h in
      let (did_hash, w₂, hash, h₂) =
        >>=-eq-ok (lift (recipient_hash o session (o.status_request msg.body))) _ w₁ h₁ in
      let (valid, same) = validated-eq-ok msg session w w₁ checked in
      let (response, reply, sent) =
        generate_status_reply-eq-ok r o config.mediator_did clock.on_reply session did_hash _ false
          none answer w₂ w' h₂ in
      (
        valid,
        (λ d asked. recipient_hash-eq-ok session _ did_hash d (ap (λ q. q.0) hash) asked),
        (
          response,
          reply,
          sent ∙ ap (λ q. q.1.updates) (sym hash) ∙ ap (λ (s : World r.Db). s.updates) same,
        ),
      )

  abbrev state_for : Bool → StreamingUpdateState
  state_for true = start
  state_for false = stop

  abbrev pub toggled : Bool → Session → World r.Db → List StreamingUpdate
  toggled live session w =
      w.updates ++ record { did_hash = session.did_hash; state = state_for live } ∷ []

  send_update-eq-ok :
      (session : Session) (live : Bool) (problem : String) (w w' : World r.Db)
      → send_update r o config clock session (state_for live) problem w ≡ (ok tt, w')
      → w'.updates ≡ toggled live session w
  unfolding send_update
  send_update-eq-ok session live problem w w' h = elim (Bool-cases w.task_runs) [
    | inl runs ↦ ap (λ q. q.1.updates) (sym (rw runs at h))
    | inr ended ↦ absurd (err-ne-ok (ap (λ q. q.0) (rw ended at h)))
  ]

  switch-eq-ok :
      (task live : Bool) (session : Session) (w w' : World r.Db)
      → task ≡ true
      → switch r o config clock task live session w ≡ (ok tt, w')
      → w'.updates ≡ toggled live session w
  switch-eq-ok true true session w w' runs h = send_update-eq-ok session true _ w w' h
  switch-eq-ok true false session w w' runs h = send_update-eq-ok session false _ w w' h
  switch-eq-ok false live session w w' runs h = ground arith

  live_body-eq-ok :
      (session : Session) (b : Option Bool) (live : Bool)
      → live_body r o config clock session b ≡ ok live
      → b ≡ some live
  live_body-eq-ok session none live h = cc
  live_body-eq-ok session (some b) live h = cc

  -- Where there is a streaming task, a live-delivery change that is answered has told the task to
  -- start or to stop, as its body asks, by one update for the session; the answer is a status in
  -- its thread that reports the state asked for, and that is to be delivered live.
  pub toggle_live_delivery-answers :
      (msg : Message) (session : Session) (answer : Option ProcessMessageResponse)
      (w w' : World r.Db)
      → config.streaming_task ≡ true
      → toggle_live_delivery r o config clock msg session w ≡ (ok answer, w')
      → (live : Bool) × (status : StatusReply) × (o.live_delivery msg.body ≡ some live)
        × (w'.updates ≡ toggled live session w)
        × IsReply config.mediator_did clock.on_reply session
            (thread_of msg msg.thid)
            true
            status
            answer
        × (status.live_delivery ≡ live)
  unfolding toggle_live_delivery
  toggle_live_delivery-answers msg session answer w w' task h =
      let (_, w₁, checked, h₁) = >>=-eq-ok (validated r o config clock msg session) _ w h in
      let (live, w₂, asked, h₂) =
        >>=-eq-ok (lift (live_body r o config clock session (o.live_delivery msg.body))) _ w₁ h₁ in
      let (_, w₃, sent, h₃) =
        >>=-eq-ok (switch r o config clock config.streaming_task live session) _ w₂ h₂ in
      let (response, reply, quiet) =
        generate_status_reply-eq-ok r o config.mediator_did clock.on_reply session session.did_hash
          _ true (some live) answer w₃ w' h₃ in
      (
        live,
        final_status r response session.did clock.on_reply (some live),
        live_body-eq-ok session _ live (ap (λ q. q.0) asked),
        quiet
            ∙ switch-eq-ok config.streaming_task live session w₂ w₃ task sent
            ∙ ap (λ (s : World r.Db). toggled live session s)
                (ap (λ q. q.1) (sym asked) ∙ (validated-eq-ok msg session w w₁ checked).1),
        reply,
        final_status-live_delivery r response session.did clock.on_reply live,
      )
