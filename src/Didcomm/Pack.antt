-- ===== src/Didcomm/Pack.antt =====
-- affinidi-messaging-didcomm/src/message/pack_plaintext.rs, pack_signed.rs and pack_encrypted/mod.rs:
-- the layers of a message put on one after the other.
pub mod Encrypt
pub mod Methods
pub mod Choice
pub mod Prior
use affinidi_messaging.Common.{
  ℕ, String, Bool, true, false, not, List, [], ◌∷◌, map, any, Option, none, some, as_bytes, ◌=ₛ◌,
  Result, ok, err, panic, then_ok, ensure,
}
use affinidi_messaging.Json.{Value}
use affinidi_messaging.Didcomm.Error.{ErrorKind, ok_or}
use affinidi_messaging.Didcomm.Message.{Message}
use affinidi_messaging.Didcomm.Keys.{Document, did_or_url, is_did}
use affinidi_messaging.Didcomm.Keys.Secrets.{secret_as_key_pair}
use affinidi_messaging.Didcomm.Wire.{AnonCryptAlg, AuthCryptAlg, FromPrior}
use affinidi_messaging.Didcomm.Crypto.{Crates}
use affinidi_messaging.Didcomm.Jws.Sign.{sign}
use affinidi_messaging.Didcomm.Jwe.Encrypt.{Fresh}
use affinidi_messaging.Didcomm.FromPrior.{unpack_from_prior, validate_pack}
use affinidi_messaging.Didcomm.FromPrior.Pack.{signing, first_or}
use affinidi_messaging.Didcomm.Routing
use affinidi_messaging.Didcomm.Routing.Services.{
  MessagingServiceMetadata, ServiceSerde, wrap_in_forward_if_needed,
}
use affinidi_messaging.Didcomm.Pack.Encrypt.{anoncrypt, authcrypt}

pub record PackEncryptedOptions : Type 0 where
  pub protect_sender : Bool
  pub forward : Bool
  pub forward_headers : Option (List (String × Value))
  pub messaging_service : Option String
  pub enc_alg_auth : AuthCryptAlg
  pub enc_alg_anon : AnonCryptAlg
  pub to_kids_limit : ℕ

pub record PackEncryptedMetadata : Type 0 where
  pub messaging_service : Option MessagingServiceMetadata
  pub from_kid : Option String
  pub sign_by_kid : Option String
  pub to_kids : List String

-- A `sub` that is not the sender is refused.
abbrev pub sub_matches : String → Option String → Bool
sub_matches sub none = true
sub_matches sub (some from) = sub =ₛ from

-- `_validate_pack_encrypted`.
abbrev did_or_absent : Option String → Bool
did_or_absent none = true
did_or_absent (some did) = is_did did

abbrev addressed : Option (List String) → String → Bool
addressed none did = true
addressed (some to) did = any (λ t. t =ₛ did) to

abbrev sent_by : Option String → Option String → Bool
sent_by (some from) (some sfrom) = (did_or_url from).0 =ₛ sfrom
sent_by _ _ = true

unfoldable pub validate_pack_encrypted :
    Message → String → Option String → Option String → Result ErrorKind (Unit {0})
unfolding is_did did_or_url
validate_pack_encrypted m to from sign_by =
    then_ok (ensure (is_did to) ErrorKind.illegal_argument) λ _.
      then_ok (ensure (did_or_absent from) ErrorKind.illegal_argument) λ _.
        then_ok (ensure (did_or_absent sign_by) ErrorKind.illegal_argument) λ _.
          then_ok (ensure (addressed m.to (did_or_url to).0) ErrorKind.illegal_argument)
            λ _. ensure (sent_by from m.from) ErrorKind.illegal_argument

module _ {K : Type 0} (crates : Crates K) where
  abbrev pub check_prior : Option String → Option String → Result ErrorKind (Unit {0})
  check_prior none from = ok tt
  check_prior (some jwt) from = then_ok (unpack_from_prior crates jwt) λ unpacked.
      then_ok (validate_pack unpacked.0 (some unpacked.1))
        λ _. ensure (sub_matches unpacked.0.sub from) ErrorKind.malformed

  unfoldable pub pack_plaintext : Message → Result ErrorKind String
  unfolding unpack_from_prior validate_pack
  pack_plaintext m =
      then_ok (check_prior m.from_prior m.from)
        λ _. ok_or ErrorKind.invalid_state (crates.serde.write_message m)

  -- The key ids that may sign: the one that is named, or all that the document lists.
  abbrev signing_kids : Document → Option String → Result ErrorKind (List String)
  signing_kids doc (some key_id) =
      then_ok
        (ensure (crates.resolvers.contains_authentication doc key_id) ErrorKind.did_url_not_found)
        λ _. ok (key_id ∷ [])
  signing_kids doc none = ok (map (crates.keys.did_url_resolve doc.id) doc.authentication)

  -- The signed message and the key id.
  unfoldable pub pack_signed : Message → String → Result ErrorKind (String × String)
  unfolding is_did did_or_url secret_as_key_pair pack_plaintext sign as_bytes
  pack_signed m sign_by = then_ok (ensure (is_did sign_by) ErrorKind.illegal_argument) λ _.
      then_ok (ok_or ErrorKind.did_not_resolved (crates.resolvers.resolve (did_or_url sign_by).0))
        λ doc. then_ok (signing_kids doc (did_or_url sign_by).1) λ kids.
          then_ok (crates.resolvers.find_secrets kids) λ found.
            then_ok (first_or ErrorKind.secret_not_found found) λ key_id.
              then_ok (crates.resolvers.get_secret key_id) λ secret_found.
                then_ok (ok_or ErrorKind.secret_not_found secret_found) λ secret.
                  then_ok (secret_as_key_pair crates.keys secret) λ sign_key.
                    then_ok (pack_plaintext m) λ payload. then_ok (signing sign_key) λ key.
                      then_ok (sign crates (as_bytes payload) key.0 (key_id, key.1.0) key.1.1)
                        λ msg. ok (msg, key_id)

  -- The message, signed or not.
  abbrev sign_or_not : Message → Option String → Result ErrorKind (String × Option String)
  sign_or_not m (some sign_by) =
      then_ok (pack_signed m sign_by) λ packed. ok (packed.0, some packed.1)
  sign_or_not m none = then_ok (pack_plaintext m) λ msg. ok (msg, none)

  module _ (random : List ℕ → Fresh K) (random_outer : List ℕ → Fresh K)
      (options : PackEncryptedOptions) where
    -- The encrypted message, the sender's key id and those of the recipient. The random values are
    -- functions of what is encrypted.
    abbrev encrypt_for :
        String → Option String → List ℕ → Result ErrorKind (String × (Option String × List String))
    encrypt_for to (some from) msg =
        then_ok
          (authcrypt crates to from msg options.enc_alg_anon options.protect_sender
            options.to_kids_limit (random msg) (random_outer msg))
          λ sealed. ok (sealed.0, (some sealed.1.0, sealed.1.1))
    encrypt_for to none msg =
        then_ok (anoncrypt crates to msg options.enc_alg_anon options.to_kids_limit (random msg))
          λ sealed. ok (sealed.0, (none, sealed.1))

    -- What the wrapping in forwards calls.
    abbrev routing : (String → Option Value) → (String → String) → Routing.Outside
    routing read_value message_id = record {
      from_str = read_value;
      to_string = crates.serde.write_message;
      message_id = message_id;
      anoncrypt = λ to msg.
          then_ok
            (anoncrypt crates to (as_bytes msg) options.enc_alg_anon options.to_kids_limit
              (random (as_bytes msg)))
            λ sealed. ok sealed.0;
    }

    abbrev with_service :
        String
        → Option (String × MessagingServiceMetadata)
        → String × Option MessagingServiceMetadata
    with_service msg none = (msg, none)
    with_service msg (some (forward_msg, service)) = (forward_msg, some service)

    unfoldable pub pack_encrypted :
        ServiceSerde
        → (String → Option Value)
        → (String → String)
        → Message
        → String
        → Option String
        → Option String
        → Result ErrorKind (String × PackEncryptedMetadata)
    unfolding validate_pack_encrypted pack_plaintext pack_signed authcrypt anoncrypt
        wrap_in_forward_if_needed as_bytes
    pack_encrypted serde read_value message_id m to from sign_by =
        then_ok (validate_pack_encrypted m to from sign_by) λ _.
          then_ok (sign_or_not m sign_by) λ plain.
            then_ok (encrypt_for to from (as_bytes plain.0)) λ sealed.
              then_ok
                (wrap_in_forward_if_needed serde crates.resolvers (routing read_value message_id)
                  sealed.0 to options.forward options.forward_headers options.messaging_service)
                λ wrapped. ok (
                  (with_service sealed.0 wrapped).0,
                  record {
                    messaging_service = (with_service sealed.0 wrapped).1;
                    from_kid = sealed.1.0;
                    sign_by_kid = plain.1;
                    to_kids = sealed.1.1;
                  },
                )
