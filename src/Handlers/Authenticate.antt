-- ===== src/Handlers/Authenticate.antt =====
-- affinidi-messaging-mediator/src/handlers/authenticate.rs and common/jwt_auth.rs: how a client
-- gets its tokens, and how a token opens a request.
pub mod Laws
pub mod Challenge
pub mod Tests
use affinidi_messaging.Common.{
  ℕ, String, Bool, true, false, not, ◌||◌, List, [], ◌∷◌, Option, none, some, ◌=ₛ◌, leb, Result, ok,
  err, panic, then_ok, ensure, Action, lift, pure, fail, ◌>>=◌, ◌>>◌, if◌then◌else◌, add_u64,
}
use affinidi_messaging.Errors.{
  MediatorError, parse_error, message_unpack_error, session_error, internal_error,
}
use affinidi_messaging.Errors
use affinidi_messaging.Json.{Value}
use affinidi_messaging.Didcomm.Message.{Message}
use affinidi_messaging.Redis.{Redis, M}
use affinidi_messaging.Database.Session.{
  Session, SessionState, challenge_sent, authenticated, unknown, blocked, SessionClaims,
  create_session, get_session, update_session_authenticated,
}
use affinidi_messaging.Messages.{MessageType, affinidi_authenticate, from_str, check_expiry}
use affinidi_messaging.Messages.Inbound.{Unpacked, no_envelope, not_unpacked, unpacked}

pub record AuthenticationChallenge : Type 0 where
  pub challenge : String
  pub session_id : String

pub record AuthorizationResponse : Type 0 where
  pub access_token : String
  pub refresh_token : String

-- `create_random_string`, twice for a challenge, and the sha256 of a DID.
unfoldable pub authentication_challenge :
    (r : Redis) → String → String → String → M r AuthenticationChallenge
authentication_challenge r session_id challenge did =
    create_session r
      (record { session_id = session_id; challenge = challenge; state = challenge_sent; did = did })
    >> pure (record { challenge = challenge; session_id = session_id })

-- jsonwebtoken's `encode` and `decode` with EdDSA; a key may be absent from the configuration.
pub record Jwt : Type 0 where
  pub encoding_key : Option String
  pub decoding_key : Option String
  pub encode : String → SessionClaims → Option String
  pub decode : String → String → Option SessionClaims

-- What the handler reads while it runs: the message, its body as a challenge, the clock twice,
-- and the new session id.
pub record Inputs : Type 0 where
  pub message : Unpacked
  pub challenge_of : Value → Option AuthenticationChallenge
  pub now : ℕ
  pub now_claims : ℕ
  pub new_session_id : String

abbrev only_authenticate : MessageType → Result MediatorError (Unit {0})
only_authenticate affinidi_authenticate = ok tt
only_authenticate _ =
    err (session_error "UNKNOWN" "Only accepts Affinidi Authentication protocol messages")

abbrev or_unread : Option AuthenticationChallenge → Result MediatorError AuthenticationChallenge
or_unread none = err (session_error "UNKNOWN" "Couldn't parse body into ChallengeBody. Reason: {}")
or_unread (some c) = ok c

-- The sender, where the message names one.
abbrev check_did : String → Option String → String → Result MediatorError (Unit {0})
check_did sid none did = ok tt
check_did sid (some from_did) did =
    ensure (from_did =ₛ did)
      (session_error sid "DID ({}) from authorization message does not match DID from session")

abbrev check_state : String → SessionState → Result MediatorError (Unit {0})
check_state sid challenge_sent = ok tt
check_state sid _ = err (session_error sid "Session is in an invalid state for authentication")

abbrev pub access_claims : Inputs → Session → SessionClaims
access_claims i session = record {
  aud = "ATM";
  sub = session.did;
  session_id = i.new_session_id;
  exp = add_u64 i.now_claims 900;
}

abbrev pub refresh_claims : Inputs → Session → SessionClaims
refresh_claims i session = record (access_claims i session) {
  exp = add_u64 (add_u64 i.now_claims 900) 85500;
}

abbrev or_encode_error : String → Option String → Result MediatorError String
or_encode_error problem none = err (internal_error "UNKNOWN" problem)
or_encode_error problem (some token) = ok token

unfoldable pub tokens : Jwt → Inputs → Session → Result MediatorError AuthorizationResponse
tokens jwt i session = elim jwt.encoding_key [
  | none ↦ err (internal_error "NA" "JWT Encoding Key not found")
  | some key ↦
      then_ok
        (or_encode_error "Couldn't encode access token. Reason: {}"
          (jwt.encode key (access_claims i session)))
        λ access.
          then_ok
            (or_encode_error "Couldn't encode refresh token. Reason: {}"
              (jwt.encode key (refresh_claims i session)))
            λ refresh. ok (record { access_token = access; refresh_token = refresh })
]

-- The checks before the database is asked.
unfoldable pub read_challenge : Inputs → Message → Result MediatorError AuthenticationChallenge
read_challenge i msg = then_ok (from_str msg.type_) λ msg_type.
    then_ok (only_authenticate msg_type) λ _.
      then_ok (check_expiry "-1" i.now msg.expires_time) λ _. or_unread (i.challenge_of msg.body)

-- The checks of the session that was found, and the tokens.
unfoldable pub grant :
    Jwt
    → Inputs
    → Message
    → AuthenticationChallenge
    → Session
    → Result MediatorError AuthorizationResponse
unfolding tokens
grant jwt i msg challenge session =
    then_ok (check_did challenge.session_id msg.from session.did)
      λ _. then_ok (check_state session.session_id session.state) λ _. tokens jwt i session

module _ (r : Redis) (jwt : Jwt) (i : Inputs) where
  unfoldable pub respond_after : Message → AuthenticationChallenge → M r AuthorizationResponse
  unfolding grant
  respond_after msg challenge = do
    session ← get_session r challenge.session_id
    response ← lift (grant jwt i msg challenge session)
    update_session_authenticated r session.session_id i.new_session_id
    pure response

  unfoldable pub respond_to : Message → M r AuthorizationResponse
  unfolding read_challenge respond_after
  respond_to msg = lift (read_challenge i msg) >>= respond_after msg

  unfoldable pub authentication_response : M r AuthorizationResponse
  unfolding respond_to
  authentication_response = elim i.message [
    | no_envelope ↦ fail (parse_error "UNKNOWN" "Raw inbound DIDComm message" "{}")
    | not_unpacked ↦
        fail (message_unpack_error "UNKNOWN" "Couldn't unpack incoming message. Reason: {}")
    | unpacked msg encrypted ↦ respond_to msg
  ]

pub data AuthError : Type 0 where
  wrong_credentials missing_credentials invalid_token expired_token : AuthError
  internal_server_error : String → AuthError

-- The HTTP status of an `AuthError`.
unfoldable pub auth_status : AuthError → ℕ
auth_status wrong_credentials = 401
auth_status missing_credentials = 400
auth_status invalid_token = 400
auth_status expired_token = 401
auth_status (internal_server_error message) = 500

-- `from_request_parts`: `has_address` is whether the connection's address is known, `bearer` the
-- token of the Authorization header.
unfoldable pub from_request_parts :
    Jwt → (String → String) → Bool → Option String → Result AuthError Errors.Session
from_request_parts jwt digest false bearer = err missing_credentials
from_request_parts jwt digest true none = err missing_credentials
from_request_parts jwt digest true (some token) = elim jwt.decoding_key [
  | none ↦ err missing_credentials
  | some key ↦ elim (jwt.decode key token) [
    | none ↦ err invalid_token
    | some claims ↦ ok (record {
      session_id = claims.session_id;
      authenticated = true;
      challenge_sent = none;
      did = claims.sub;
      did_hash = digest claims.sub;
    })
  ]
]
