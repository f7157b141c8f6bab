-- ===== src/Handlers/Authenticate/Challenge.antt =====
-- What the text of a challenge is good for.
use mathlib.Core.Option
use affinidi_messaging.Common.{
  String, Option, none, some, ◌≡◌, refl, sym, ◌∙◌, Result, ok, err, panic, then_ok, then_ok_cong,
  then_ok_assoc, lift, ◌>>=◌,
}
use affinidi_messaging.Errors.{MediatorError}
use affinidi_messaging.Didcomm.Message.{Message}
use affinidi_messaging.Redis.{Redis, World}
use affinidi_messaging.Messages.{from_str, check_expiry}
use affinidi_messaging.Handlers.Authenticate.{
  AuthenticationChallenge, Jwt, Inputs, only_authenticate, or_unread, tokens, read_challenge, grant,
  respond_after, respond_to,
}

-- The challenge with another text.
abbrev retext : String → AuthenticationChallenge → AuthenticationChallenge
retext text c = record c { challenge = text }

abbrev pub retext_body : String → Inputs → Inputs
retext_body text i = record i { challenge_of = λ v. Option.map (retext text) (i.challenge_of v) }

or_unread-retext :
    (text : String) (o : Option AuthenticationChallenge)
    → or_unread (Option.map (retext text) o) ≡ then_ok (or_unread o) (λ c. ok (retext text c))
or_unread-retext text none = refl
or_unread-retext text (some c) = refl

read_challenge-retext :
    (i : Inputs) (text : String) (msg : Message)
    → read_challenge (retext_body text i) msg
      ≡ then_ok (read_challenge i msg) (λ c. ok (retext text c))
unfolding read_challenge
read_challenge-retext i text msg =
    then_ok_cong (from_str msg.type_) _ _ (λ t.
      then_ok_cong (only_authenticate t) _ _ (λ u.
        then_ok_cong (check_expiry "-1" i.now msg.expires_time) _ _
          (λ v. or_unread-retext text (i.challenge_of msg.body))
        ∙ sym (then_ok_assoc (check_expiry "-1" i.now msg.expires_time) _ _))
      ∙ sym (then_ok_assoc (only_authenticate t) _ _))
    ∙ sym (then_ok_assoc (from_str msg.type_) _ _)

module _ (r : Redis) (jwt : Jwt) (i : Inputs) (text : String) (msg : Message) (w : World r.Db) where
  respond_after-retext :
      (x : Result MediatorError AuthenticationChallenge)
      → (lift (then_ok x (λ c. ok (retext text c)))
            >>= respond_after r jwt (retext_body text i) msg)
          w
        ≡ (lift x >>= respond_after r jwt i msg) w
  unfolding respond_after grant tokens
  respond_after-retext (ok c) = refl
  respond_after-retext (err e) = refl
  respond_after-retext panic = refl

  -- The text of a challenge is never compared: whatever text the client sends back, the answer
  -- and the database afterwards are the same.
  pub respond_to_any_text : respond_to r jwt (retext_body text i) msg w ≡ respond_to r jwt i msg w
  unfolding respond_to
  respond_to_any_text =
      rw (read_challenge-retext i text msg) (respond_after-retext (read_challenge i msg))
