-- ===== src/Handlers/Authenticate/Tests.antt =====
-- The answer to the challenge of Database.Session.Tests.
use affinidi_messaging.Common.{String, true, none, some, ◌≡◌, ◌≢◌, refl, arith, eq_iff, ok}
use affinidi_messaging.Json.{null}
use affinidi_messaging.Didcomm.Message.{Message, build, set_from, finalize}
use affinidi_messaging.Redis.{World, get_async_connection, query_async}
use affinidi_messaging.Redis.Documented.{Hashes}
use affinidi_messaging.Redis.Toy.{toy, toy-Documented}
use affinidi_messaging.Database.Session.{create_session, get_session, update_session_authenticated}
use affinidi_messaging.Database.Session.Tests.{after_create}
use affinidi_messaging.Messages.{from_str}
use affinidi_messaging.Messages.Inbound.{unpacked}
use affinidi_messaging.Handlers.Authenticate.{
  AuthenticationChallenge, AuthorizationResponse, Jwt, Inputs, authentication_response, respond_to,
}
use affinidi_messaging.Handlers.Authenticate.Laws.{
  IsGranted, authentication_response-IsGranted, authentication_response_once,
}
use affinidi_messaging.Handlers.Authenticate.Challenge.{respond_to_any_text, retext_body}

abbrev jwt : Jwt
jwt = record {
  encoding_key = some "key";
  decoding_key = some "key";
  encode = λ key claims. some claims.sub;
  decode = λ key token. none;
}

abbrev answer_msg : Message
answer_msg =
    finalize (set_from "did:a" (build "id-1" "https://affinidi.com/atm/1.0/authenticate" null))

abbrev challenge : AuthenticationChallenge
challenge = record { challenge = "c"; session_id = "s1" }

abbrev inputs : Inputs
inputs = record {
  message = unpacked answer_msg true;
  challenge_of = λ v. some challenge;
  now = 10;
  now_claims = 10;
  new_session_id = "s2";
}

abbrev issued : AuthorizationResponse
issued = record { access_token = "did:a"; refresh_token = "did:a" }

abbrev after_answer : World Hashes
after_answer = (authentication_response toy jwt inputs after_create).1

answered : authentication_response toy jwt inputs after_create ≡ (ok issued, after_answer)
unfolding authentication_response create_session get_session update_session_authenticated
    get_async_connection query_async from_str
answered = refl

authentication_response-IsGranted_example :
    IsGranted toy toy-Documented jwt inputs after_create issued
authentication_response-IsGranted_example =
    authentication_response-IsGranted toy toy-Documented jwt inputs after_create after_answer issued
      answered

s2-ne-s1 : ◌≢◌ {A = String} "s2" "s1"
s2-ne-s1 h = ground (arith, eq_iff "s2" "s1")

authentication_response_once_example :
    (authentication_response toy jwt inputs after_answer).0 ≢ ok issued
authentication_response_once_example =
    authentication_response_once toy toy-Documented jwt inputs inputs answer_msg answer_msg true
      true challenge challenge after_create after_answer issued issued refl refl s2-ne-s1 answered
      refl refl refl

respond_to_any_text_example :
    respond_to toy jwt (retext_body "x" inputs) answer_msg after_create
    ≡ respond_to toy jwt inputs answer_msg after_create
respond_to_any_text_example = respond_to_any_text toy jwt inputs "x" answer_msg after_create
