-- ===== src/Handlers/Authenticate/Laws.antt =====
-- What a client must have shown to be given tokens, and that a challenge works once.
use affinidi_messaging.Common.{
  ℕ, ◌<◌, String, Bool, Option, none, some, ◌≡◌, ◌≢◌, refl, sym, ap, subst, ◌∙◌, inl, inr, arith,
  eq_iff, ok, then_ok-eq-ok, err-ne-ok, ok-injective, some-injective, Option-cases, >>=-eq-ok, lift,
}
use affinidi_messaging.Didcomm.Message.{Message}
use affinidi_messaging.Redis.{Redis, World}
use affinidi_messaging.Redis.Documented.{Documented}
use affinidi_messaging.Database.Session.{
  Session, SessionState, challenge_sent, session_try_from, key, get_session,
  update_session_authenticated,
}
use affinidi_messaging.Database.Session.Laws.{
  get_session-eq-ok, update_session_authenticated-renames, session_try_from-ne-ok,
  session_try_from-session_id,
}
use affinidi_messaging.Messages.{MessageType, affinidi_authenticate, from_str, check_expiry}
use affinidi_messaging.Messages.Inbound.{Unpacked, no_envelope, not_unpacked, unpacked}
use affinidi_messaging.Handlers.Authenticate.{
  AuthenticationChallenge, AuthorizationResponse, Jwt, Inputs, only_authenticate, or_unread,
  check_did, check_state, access_claims, refresh_claims, or_encode_error, tokens, read_challenge,
  grant, respond_after, respond_to, authentication_response,
}

-- The message is an authentication message that has not expired, and its body is the challenge.
pub record IsAnswer (i : Inputs) (msg : Message) (c : AuthenticationChallenge) : Type 0 where
  pub kind : from_str msg.type_ ≡ ok affinidi_authenticate
  pub fresh : (expires : ℕ) → msg.expires_time ≡ some expires → i.now < expires
  pub body : i.challenge_of msg.body ≡ some c

-- The session is the sender's, if the message names a sender, and waits for its answer.
pub record IsWaiting (msg : Message) (s : Session) : Type 0 where
  pub sender : (did : String) → msg.from ≡ some did → did ≡ s.did
  pub state : s.state ≡ challenge_sent

-- Both tokens are encodings, under the configured key, of claims about the session's DID.
pub record IsIssued (jwt : Jwt) (i : Inputs) (s : Session) (a : AuthorizationResponse)
    : Type 0 where
  pub encoding_key : String
  pub configured : jwt.encoding_key ≡ some encoding_key
  pub access : jwt.encode encoding_key (access_claims i s) ≡ some a.access_token
  pub refresh : jwt.encode encoding_key (refresh_claims i s) ≡ some a.refresh_token

only_authenticate-eq-ok :
    (t : MessageType) → only_authenticate t ≡ ok tt → t ≡ affinidi_authenticate
only_authenticate-eq-ok affinidi_authenticate h = refl
only_authenticate-eq-ok _ h = cc

check_expiry-fresh :
    (sid : String) (now : ℕ) (expires_time : Option ℕ)
    → check_expiry sid now expires_time ≡ ok tt
    → (expires : ℕ) → expires_time ≡ some expires
    → now < expires
check_expiry-fresh sid now expires_time h expires e = ground arith

or_unread-eq-ok :
    (o : Option AuthenticationChallenge) (c : AuthenticationChallenge)
    → or_unread o ≡ ok c
    → o ≡ some c
or_unread-eq-ok o c h = ground arith

read_challenge-IsAnswer :
    (i : Inputs) (msg : Message) (c : AuthenticationChallenge)
    → read_challenge i msg ≡ ok c
    → IsAnswer i msg c
unfolding read_challenge
read_challenge-IsAnswer i msg c h =
    let (t, parsed, h₁) = then_ok-eq-ok _ _ h in
    let (u, only, h₂) = then_ok-eq-ok _ _ h₁ in
    let (u', fresh, h₃) = then_ok-eq-ok _ _ h₂ in
    record {
      kind = parsed ∙ ap ok (only_authenticate-eq-ok t only);
      fresh = check_expiry-fresh "-1" i.now msg.expires_time fresh;
      body = or_unread-eq-ok _ c h₃;
    }

or_encode_error-eq-ok :
    (problem : String) (o : Option String) (token : String)
    → or_encode_error problem o ≡ ok token
    → o ≡ some token
or_encode_error-eq-ok problem o token h = ground arith

tokens-IsIssued :
    (jwt : Jwt) (i : Inputs) (s : Session) (a : AuthorizationResponse)
    → tokens jwt i s ≡ ok a
    → IsIssued jwt i s a
unfolding tokens
tokens-IsIssued jwt i s a h = elim (Option-cases jwt.encoding_key) [
  | inl absent ↦ absurd (err-ne-ok (rw (absent, tokens) at h))
  | inr (k, present) ↦
      let (access, encoded, h₁) = then_ok-eq-ok _ _ (rw (present, tokens) at h) in
      let (refresh, encoded', h₂) = then_ok-eq-ok _ _ h₁ in
      let same = ok-injective _ _ h₂ in
      record {
        encoding_key = k;
        configured = present;
        access =
            or_encode_error-eq-ok _ _ access encoded
            ∙ ap (λ (x : AuthorizationResponse). some x.access_token) same;
        refresh =
            or_encode_error-eq-ok _ _ refresh encoded'
            ∙ ap (λ (x : AuthorizationResponse). some x.refresh_token) same;
      }
]

check_did-sender :
    (sid : String) (from : Option String) (did : String)
    → check_did sid from did ≡ ok tt
    → (d : String) → from ≡ some d
    → d ≡ did
check_did-sender sid from did h d e = ground (arith, eq_iff d did)

check_state-challenge_sent :
    (sid : String) (s : SessionState) → check_state sid s ≡ ok tt → s ≡ challenge_sent
check_state-challenge_sent sid challenge_sent h = refl
check_state-challenge_sent sid _ h = cc

grant-IsWaiting :
    (jwt : Jwt) (i : Inputs) (msg : Message) (c : AuthenticationChallenge) (s : Session)
    (a : AuthorizationResponse)
    → grant jwt i msg c s ≡ ok a
    → IsWaiting msg s × IsIssued jwt i s a
unfolding grant
grant-IsWaiting jwt i msg c s a h =
    let (u, sender, h₁) = then_ok-eq-ok _ _ h in
    let (u', state, h₂) = then_ok-eq-ok _ _ h₁ in
    (
      record {
        sender = check_did-sender c.session_id msg.from s.did sender;
        state = check_state-challenge_sent s.session_id s.state state;
      },
      tokens-IsIssued jwt i s a h₂,
    )

-- What `authentication_response` has established when it answers with tokens.
pub record IsGranted (r : Redis) (doc : Documented r) (jwt : Jwt) (i : Inputs) (w : World r.Db)
    (a : AuthorizationResponse) : Type 0 where
  pub msg : Message
  pub encrypted : Bool
  pub challenge : AuthenticationChallenge
  pub session : Session
  pub received : i.message ≡ unpacked msg encrypted
  pub answer : IsAnswer i msg challenge
  pub found :
      session_try_from challenge.session_id (doc.hashes w.db (key challenge.session_id))
      ≡ ok session
  pub waiting : IsWaiting msg session
  pub issued : IsIssued jwt i session a

module _ (r : Redis) (doc : Documented r) (jwt : Jwt) (i : Inputs) where
  open doc use {hashes}

  respond_to-eq-ok :
      (msg : Message) (w w' : World r.Db) (a : AuthorizationResponse)
      → respond_to r jwt i msg w ≡ (ok a, w')
      → (c : AuthenticationChallenge) × (s : Session) × (w₁ : World r.Db) × IsAnswer i msg c
        × (session_try_from c.session_id (hashes w.db (key c.session_id)) ≡ ok s)
        × IsWaiting msg s
        × IsIssued jwt i s a
        × (update_session_authenticated r s.session_id i.new_session_id w₁ ≡ (ok tt, w'))
  unfolding respond_to respond_after
  respond_to-eq-ok msg w w' a h =
      let (c, w₀, read, h₁) = >>=-eq-ok (lift (read_challenge i msg)) _ w h in
      let (s, w₁, got, h₂) = >>=-eq-ok (get_session r c.session_id) _ w₀ h₁ in
      let (a', w₂, granted, h₃) = >>=-eq-ok (lift (grant jwt i msg c s)) _ w₁ h₂ in
      let (u, w₃, updated, h₄) =
        >>=-eq-ok (update_session_authenticated r s.session_id i.new_session_id) _ w₂ h₃ in
      let (waiting, issued) = grant-IsWaiting jwt i msg c s a' (ap (λ q. q.0) granted) in
      (
        c,
        s,
        w₂,
        read_challenge-IsAnswer i msg c (ap (λ q. q.0) read),
        subst
            (λ (x : World r.Db).
              session_try_from c.session_id (hashes x.db (key c.session_id)) ≡ ok s)
            (sym (ap (λ q. q.1) read)) (get_session-eq-ok r doc c.session_id w₀ w₁ s got).0,
        waiting,
        subst (λ x. IsIssued jwt i s x) (ok-injective _ _ (ap (λ q. q.0) h₄)) issued,
        subst
            (λ (x : World r.Db).
              update_session_authenticated r s.session_id i.new_session_id w₂ ≡ (ok tt, x))
            (ap (λ q. q.1) h₄) updated,
      )

  received-eq-ok :
      (w w' : World r.Db) (a : AuthorizationResponse)
      → authentication_response r jwt i w ≡ (ok a, w')
      → (msg : Message) × (encrypted : Bool) × (i.message ≡ unpacked msg encrypted)
        × (respond_to r jwt i msg w ≡ (ok a, w'))
  unfolding authentication_response
  received-eq-ok w w' a h = by_message i.message refl
    where
      by_message :
          (m : Unpacked)
          → i.message ≡ m
          → (msg : Message) × (encrypted : Bool) × (i.message ≡ unpacked msg encrypted)
            × (respond_to r jwt i msg w ≡ (ok a, w'))
      by_message no_envelope e =
          absurd (err-ne-ok (ap (λ q. q.0) (rw (e, authentication_response) at h)))
      by_message not_unpacked e =
          absurd (err-ne-ok (ap (λ q. q.0) (rw (e, authentication_response) at h)))
      by_message (unpacked msg encrypted) e =
          (msg, encrypted, e, rw (e, authentication_response) at h)

  -- Over a server that behaves as documented, tokens are given only for an unexpired
  -- authentication message whose body names a session that the database holds and that still
  -- waits for its answer; a sender that the message names is the session's DID; and both tokens
  -- are encodings of claims about the session's DID under the configured key.
  pub authentication_response-IsGranted :
      (w w' : World r.Db) (a : AuthorizationResponse)
      → authentication_response r jwt i w ≡ (ok a, w')
      → IsGranted r doc jwt i w a
  authentication_response-IsGranted w w' a h =
      let (msg, encrypted, received, h₁) = received-eq-ok w w' a h in
      let (c, s, w₁, answer, found, waiting, issued, updated) = respond_to-eq-ok msg w w' a h₁ in
      record {
        msg = msg;
        encrypted = encrypted;
        challenge = c;
        session = s;
        received = received;
        answer = answer;
        found = found;
        waiting = waiting;
        issued = issued;
      }

unpacked-injective : (m n : Message) (a b : Bool) → unpacked m a ≡ unpacked n b → m ≡ n
unpacked-injective m n a b h = cc

module _ (r : Redis) (doc : Documented r) (jwt : Jwt) where
  open doc use {hashes}

  -- After a success the session is gone under the id that the answered challenge names.
  spent :
      (i : Inputs) (msg : Message) (encrypted : Bool) (c : AuthenticationChallenge)
      (w w' : World r.Db) (a : AuthorizationResponse)
      → i.message ≡ unpacked msg encrypted
      → i.challenge_of msg.body ≡ some c
      → i.new_session_id ≢ c.session_id
      → authentication_response r jwt i w ≡ (ok a, w')
      → (f : String) → hashes w'.db (key c.session_id) f ≡ none
  spent i msg encrypted c w w' a received body differ h f =
      let (m, b, received', h₁) = received-eq-ok r doc jwt i w w' a h in
      let same_msg = unpacked-injective m msg b encrypted (sym received' ∙ received) in
      let (c', s, w₁, answer, found, waiting, issued, updated) =
        respond_to-eq-ok r doc jwt i m w w' a h₁ in
      let same_c =
        some-injective c' c
          (sym answer.body ∙ ap (λ (x : Message). i.challenge_of x.body) same_msg ∙ body) in
      let same_id =
        session_try_from-session_id _ _ s found
        ∙ ap (λ (x : AuthenticationChallenge). x.session_id) same_c in
      let renamed =
        update_session_authenticated-renames r doc s.session_id i.new_session_id w₁ w'
          (λ e. differ (sym e ∙ same_id)) updated in
      subst (λ sid. hashes w'.db (key sid) f ≡ none) same_id (renamed.0 f)

  -- A challenge works once: after tokens were given for a message, no message whose body names
  -- the same session is given tokens over the database that this left, provided that the new
  -- session id, which is drawn at random, differs from the old one, and that the server behaves
  -- as documented.
  pub authentication_response_once :
      (i j : Inputs) (m n : Message) (a b : Bool) (c d : AuthenticationChallenge)
      (w w' : World r.Db) (t u : AuthorizationResponse)
      → i.message ≡ unpacked m a
      → i.challenge_of m.body ≡ some c
      → i.new_session_id ≢ c.session_id
      → authentication_response r jwt i w ≡ (ok t, w')
      → j.message ≡ unpacked n b
      → j.challenge_of n.body ≡ some d
      → d.session_id ≡ c.session_id
      → (authentication_response r jwt j w').0 ≢ ok u
  authentication_response_once i j m n a b c d w w' t u got body differ done got' body' same h =
      let (n', b', received, h₁) =
        received-eq-ok r doc jwt j w' (authentication_response r jwt j w').1 u
          (λ k. (h k, (authentication_response r jwt j w').1)) in
      let same_n = unpacked-injective n' n b' b (sym received ∙ got') in
      let (d', s, w₁, answer, found, waiting, issued, updated) =
        respond_to-eq-ok r doc jwt j n' w' _ u h₁ in
      let same_d =
        some-injective d' d
          (sym answer.body ∙ ap (λ (x : Message). j.challenge_of x.body) same_n ∙ body') in
      let same_id = ap (λ (x : AuthenticationChallenge). x.session_id) same_d ∙ same in
      session_try_from-ne-ok r doc c.session_id w'.db s (spent i m a c w w' t got body differ done)
        (subst (λ sid. session_try_from sid (hashes w'.db (key sid)) ≡ ok s) same_id found)
