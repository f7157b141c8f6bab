-- ===== src/Messages/Inbound/Delivery.antt =====
-- What handling an inbound message yields.
use affinidi_messaging.Common.{
  ℕ, suc, ◌+◌, ◌≤◌, String, Bool, List, [], ◌∷◌, ◌++◌, length, length-append, ltb, Option, none,
  some, ◌≡◌, ◌≢◌, inl, inr, refl, sym, ap, ◌∙◌, arith, map, Result, ok, err, panic, then_ok,
  then_ok-eq-ok, err-ne-ok, ok-injective, Bool-cases,
}
use affinidi_messaging.Errors.{MediatorError, Session}
use affinidi_messaging.Didcomm.Message.{Message}
use affinidi_messaging.Redis.{Redis, World, get_async_connection, query_async}
use affinidi_messaging.Database.Messages.{store_message}
use affinidi_messaging.Messages.{Outside, Clock, Config, MessageResponse, message, packed_message}
use affinidi_messaging.Messages.Process.{pack}
use affinidi_messaging.Messages.Inbound.{
  Crypto, InboundMessageList, store_all, pack_all, pack_for, to_did_packed,
}

cons-ne-nil : {A : Type 0} {x : A} {xs : List A} → Path (List A) (x ∷ xs) [] → ⊥
cons-ne-nil h = cc

packed-ne-message : {to packed : String} {m : Message} → packed_message to packed ≡ message m → ⊥
packed-ne-message h = cc

module _ (r : Redis) (o : Outside) (crypto : Crypto) (config : Config) (clock : Clock) where
  abbrev recipients : List (String × String) → List String
  recipients = map (λ p. p.0)

  abbrev after_pack :
      Message → Bool → String → List String → String → Result MediatorError (List (String × String))
  after_pack msg encrypted d ds packed =
      then_ok (pack_all r o crypto config clock msg encrypted ds) λ rest. ok ((d, packed) ∷ rest)

  pack_all-recipients :
      (msg : Message) (encrypted : Bool) (to_dids : List String) (out : List (String × String))
      → pack_all r o crypto config clock msg encrypted to_dids ≡ ok out
      → recipients out ≡ to_dids
  unfolding pack_all
  pack_all-recipients msg encrypted [] out h = ap recipients (sym (ok-injective [] out h))
  pack_all-recipients msg encrypted (d ∷ ds) out h =
      let (packed, here, h₁) =
        then_ok-eq-ok {A = String}
          (pack crypto.pack_encrypted msg d config.mediator_did encrypted
            config.to_keys_per_recipient_limit)
          (after_pack msg encrypted d ds) h in
      let (rest, later, h₂) =
        then_ok-eq-ok (pack_all r o crypto config clock msg encrypted ds)
          (λ rest. ok ((d, packed) ∷ rest)) h₁ in
      ap recipients (sym (ok-injective ((d, packed) ∷ rest) out h₂))
      ∙ ap (◌∷◌ d) (pack_all-recipients msg encrypted ds rest later)

  length-recipients : (out : List (String × String)) → length (recipients out) ≡ length out
  length-recipients [] = refl
  length-recipients (p ∷ ps) = ap suc (length-recipients ps)

  pack_for-recipients :
      (session : Session) (msg : Message) (encrypted : Bool) (to_dids : List String)
      (out : List (String × String))
      → pack_for r o crypto config clock session msg encrypted to_dids ≡ ok out
      → (recipients out ≡ to_dids) × (out ≢ []) × (length out ≤ config.to_recipients_limit)
  unfolding pack_for
  pack_for-recipients session msg encrypted [] out h =
      elim (Bool-cases (ltb config.to_recipients_limit 0)) [
        | inl over ↦ absurd (err-ne-ok (rw over at h))
        | inr under ↦ absurd (err-ne-ok (rw under at h))
      ]
  pack_for-recipients session msg encrypted (d ∷ ds) out h =
      elim (Bool-cases (ltb config.to_recipients_limit (length (d ∷ ds)))) [
        | inl over ↦ absurd (err-ne-ok (rw over at h))
        | inr under ↦
            let same = pack_all-recipients msg encrypted (d ∷ ds) out (rw under at h) in
            (
              same,
              (λ e. cons-ne-nil (sym same ∙ ap recipients e)),
              ground (arith, ap length same, length-recipients out),
            )
      ]

  -- Whom an answer goes to.
  abbrev pub addressees : MessageResponse → Option (List String)
  addressees (packed_message to packed) = some (to ∷ [])
  addressees (message msg) = msg.to

  -- What is sent out goes to the addressees of the answer, in order, each once for each time that
  -- it is named; there is at least one; and a message that the mediator packs itself has no more
  -- than the configured number of them.
  pub to_did_packed-recipients :
      (session : Session) (encrypted : Bool) (answer : MessageResponse)
      (out : List (String × String))
      → to_did_packed r o crypto config clock session encrypted answer ≡ ok out
      → (addressees answer ≡ some (recipients out))
        × (out ≢ [])
        × ((msg : Message) → answer ≡ message msg → length out ≤ config.to_recipients_limit)
  unfolding to_did_packed
  to_did_packed-recipients session encrypted (packed_message to packed) out h =
      let same = ok-injective _ out h in
      (
        ap (λ (x : List (String × String)). some (recipients x)) same,
        (λ e. cons-ne-nil (same ∙ e)),
        (λ msg e. absurd (packed-ne-message e)),
      )
  to_did_packed-recipients session encrypted (message msg) out h = by_to msg.to refl
    where
      by_to :
          (to : Option (List String))
          → msg.to ≡ to
          → (msg.to ≡ some (recipients out))
            × (out ≢ [])
            × ((m : Message) → message msg ≡ message m → length out ≤ config.to_recipients_limit)
      by_to none e = absurd (err-ne-ok (rw (e, to_did_packed) at h))
      by_to (some to_dids) e =
          let (same, some_one, few) =
            pack_for-recipients session msg encrypted to_dids out (rw (e, to_did_packed) at h) in
          (e ∙ ap some (sym same), some_one, λ m k. few)

  store_message-ne-panic :
      (session : Session) (packed to_did : String) (w : World r.Db)
      → (store_message r o.digest session.session_id packed to_did (some config.mediator_did) w).0
        ≢ panic
  unfolding store_message get_async_connection query_async
  store_message-ne-panic session packed to_did w e = ground arith

  abbrev pub count : InboundMessageList → ℕ
  count acc = length acc.messages + length acc.errors

  abbrev pub StoresAll : Session → List (String × String) → InboundMessageList → World r.Db → Type 0
  StoresAll session packed acc w =
      (list : InboundMessageList) × (w' : World r.Db) × (store_all r o crypto config clock session
          packed acc w
        ≡ (ok list, w'))
      × (count list ≡ count acc + length packed)

  store_first :
      (session : Session) (to_did packed : String) (more : List (String × String))
      (acc : InboundMessageList) (w : World r.Db)
      → ((acc' : InboundMessageList) (w' : World r.Db) → StoresAll session more acc' w')
      → (p : Result MediatorError String × World r.Db)
      → store_message r o.digest session.session_id packed to_did (some config.mediator_did) w ≡ p
      → StoresAll session ((to_did, packed) ∷ more) acc w
  unfolding store_all
  store_first session to_did packed more acc w rest (ok msg_id, w₁) e =
      let (list, w', same, total) =
        rest (record acc { messages = acc.messages ++ (to_did, msg_id) ∷ [] }) w₁ in
      (
        list,
        w',
        rw e same,
        omega (arith, total, length-append acc.messages ((to_did, msg_id) ∷ [])),
      )
  store_first session to_did packed more acc w rest (err x, w₁) e =
      let (list, w', same, total) =
        rest (record acc { errors = acc.errors ++ (to_did, x) ∷ [] }) w₁ in
      (list, w', rw e same, omega (arith, total, length-append acc.errors ((to_did, x) ∷ [])))
  store_first session to_did packed more acc w rest (panic, w₁) e =
      absurd (store_message-ne-panic session packed to_did w (ap (λ q. q.0) e))

  -- Storing never fails as a whole: it always yields a list, whose stored messages and errors
  -- together are as many more than before as there are recipients.
  pub store_all-total :
      (session : Session) (packed : List (String × String)) (acc : InboundMessageList)
      (w : World r.Db)
      → StoresAll session packed acc w
  unfolding store_all
  store_all-total session [] acc w = (acc, w, refl, omega arith)
  store_all-total session ((to_did, packed) ∷ more) acc w =
      store_first session to_did packed more acc w (λ acc' w'. store_all-total session more acc' w')
        _ refl
