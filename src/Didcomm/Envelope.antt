-- ===== src/Didcomm/Envelope.antt =====
-- affinidi-messaging-didcomm/src/envelope.rs, and `fill_envelope_from` of jwe/parse.rs: an envelope
-- with what is known of its sender and its recipients.
use affinidi_messaging.Common.{
  ℕ, String, Bool, true, false, not, ◌||◌, List, [], ◌∷◌, any, Option, none, some, from_utf8, ◌=ₛ◌,
  Result, ok, err, panic, Action, then_ok, ensure, pure, lift,
}
use affinidi_messaging.Common.Steps.{◌>>=◌, ◌>>◌, modify}
use affinidi_messaging.Didcomm.Error.{ErrorKind, ok_or, kind, to_didcomm}
use affinidi_messaging.Didcomm.Keys.{KnownKeyPair, Document, VerificationMethod, did_or_url, is_url}
use affinidi_messaging.Didcomm.Keys.Methods.{get_jwk, as_key_pair}
use affinidi_messaging.Didcomm.Wire.{
  AnonCryptAlg, AuthCryptAlg, SignAlg, Jws, FromPrior, ParsedJwe, Envelope, ParsedEnvelope,
}
use affinidi_messaging.Didcomm.Crypto.{Crates}
use affinidi_messaging.Didcomm.Jwe
use affinidi_messaging.Didcomm.Jwe.{verify_jwe}
use affinidi_messaging.Didcomm.Jws

pub record UnpackMetadata : Type 0 where
  pub encrypted : Bool
  pub authenticated : Bool
  pub non_repudiation : Bool
  pub anonymous_sender : Bool
  pub re_wrapped_in_forward : Bool
  pub encrypted_from_kid : Option String
  pub encrypted_to_kids : Option (List String)
  pub sign_from : Option String
  pub from_prior_issuer_kid : Option String
  pub enc_alg_auth : Option AuthCryptAlg
  pub enc_alg_anon : Option AnonCryptAlg
  pub sign_alg : Option SignAlg
  pub signed_message : Option Jws
  pub from_prior : Option FromPrior

pub record MetaEnvelope (K : Type 0) : Type 0 where
  pub envelope : Option Envelope
  pub parsed_envelope : Option ParsedEnvelope
  pub metadata : UnpackMetadata
  pub from_kid : Option String
  pub from_did : Option String
  pub from_ddoc : Option Document
  pub from_key : Option (KnownKeyPair K)
  pub to_kid : Option String
  pub to_did : Option String
  pub to_kids_found : List String

abbrev pub default_metadata : UnpackMetadata
default_metadata = record {
  encrypted = false;
  authenticated = false;
  non_repudiation = false;
  anonymous_sender = false;
  re_wrapped_in_forward = false;
  encrypted_from_kid = none;
  encrypted_to_kids = none;
  sign_from = none;
  from_prior_issuer_kid = none;
  enc_alg_auth = none;
  enc_alg_anon = none;
  sign_alg = none;
  signed_message = none;
  from_prior = none;
}

abbrev pub default_envelope : {K : Type 0} → MetaEnvelope K
default_envelope = record {
  envelope = none;
  parsed_envelope = none;
  metadata = default_metadata;
  from_kid = none;
  from_did = none;
  from_ddoc = none;
  from_key = none;
  to_kid = none;
  to_did = none;
  to_kids_found = [];
}

-- A step on the envelope.
abbrev pub Step : Type 0 → Type 0 → Type 0
Step K A = Action (MetaEnvelope K) ErrorKind A

abbrev pub set_metadata :
    {K : Type 0} → (UnpackMetadata → UnpackMetadata) → MetaEnvelope K → MetaEnvelope K
set_metadata f s = record s { metadata = f s.metadata }

-- The key ids are URLs of the one DID.
abbrev outside : String → String → Bool
outside to_did k = not ((did_or_url k).0 =ₛ to_did) || not (is_url k)

abbrev pub within_did : String → List String → Bool
within_did to_kid to_kids = not (any (outside (did_or_url to_kid).0) to_kids)

abbrev pub first : List String → Option String
first [] = none
first (k ∷ ks) = some k

abbrev pub is_empty : List String → Bool
is_empty [] = true
is_empty (k ∷ ks) = false

module _ {K : Type 0} (crates : Crates K) where
  unfoldable pub parse_envelope : Envelope → Result ErrorKind ParsedEnvelope
  parse_envelope (Envelope.jwe jwe) =
      then_ok (Jwe.parse crates.crypto crates.serde jwe) λ parsed. ok (ParsedEnvelope.jwe parsed)
  parse_envelope (Envelope.jws jws) =
      then_ok (Jws.parse crates.crypto crates.serde jws) λ parsed. ok (ParsedEnvelope.jws parsed)
  parse_envelope (Envelope.message m) = ok (ParsedEnvelope.message m)

  unfoldable pub verify_didcomm : ParsedEnvelope → Result ErrorKind ParsedEnvelope
  verify_didcomm (ParsedEnvelope.jwe jwe) =
      then_ok (verify_jwe crates.crypto jwe) λ checked. ok (ParsedEnvelope.jwe checked)
  verify_didcomm (ParsedEnvelope.jws jws) = ok (ParsedEnvelope.jws jws)
  verify_didcomm (ParsedEnvelope.message m) = ok (ParsedEnvelope.message m)

  -- `Envelope::from_str(s)?.parse()?.verify_didcomm()?`.
  unfoldable pub open_envelope : String → Result ErrorKind ParsedEnvelope
  open_envelope s =
      then_ok (to_didcomm (crates.serde.read_envelope s))
        λ envelope. then_ok (parse_envelope envelope) verify_didcomm

  abbrev pub pair_of_method : VerificationMethod → Result ErrorKind (KnownKeyPair K)
  pair_of_method vm = then_ok (get_jwk crates.keys vm) λ found.
      then_ok (ok_or ErrorKind.malformed found)
        λ jwk. kind ErrorKind.malformed (as_key_pair crates.keys jwk)

  -- The sender, whose key id is the agreement info.
  unfoldable pub fill_sender : List ℕ → Step K (Unit {0})
  unfolding did_or_url get_jwk as_key_pair
  fill_sender apu = do
    from_kid ← lift (ok_or ErrorKind.malformed (from_utf8 apu))
    lift (ensure (is_url from_kid) ErrorKind.malformed)
    modify (λ s. record s { from_did = some (did_or_url from_kid).0 })
    doc ← lift (ok_or ErrorKind.did_not_resolved (crates.resolvers.resolve (did_or_url from_kid).0))
    modify (λ s. record s { from_ddoc = some doc })
    lift (ensure (crates.resolvers.contains_key_agreement doc from_kid) ErrorKind.did_url_not_found)
    modify (λ s. record s { from_kid = some from_kid })
    vm ←
        lift (
          ok_or ErrorKind.did_url_not_found (crates.resolvers.get_verification_method doc from_kid))
    key_pair ← lift (pair_of_method vm)
    modify (λ s. record s { from_key = some key_pair })
    modify (
        set_metadata λ md. record md {
          authenticated = true;
          encrypted = true;
          encrypted_from_kid = some from_kid;
        })

  abbrev pub sender_or_anonymous : Option (List ℕ) → Step K (Unit {0})
  sender_or_anonymous (some apu) = fill_sender apu
  sender_or_anonymous none = modify (set_metadata λ md. record md { anonymous_sender = true })

  unfoldable pub fill_recipients : List String → Step K (Unit {0})
  unfolding did_or_url
  fill_recipients to_kids = do
    to_kid ← lift (ok_or ErrorKind.malformed (first to_kids))
    modify (λ s. record s { to_kid = some to_kid; to_did = some (did_or_url to_kid).0 })
    lift (ensure (within_did to_kid to_kids) ErrorKind.malformed)
    modify (set_metadata λ md. record md { encrypted_to_kids = some to_kids })
    found ← lift (crates.resolvers.find_secrets to_kids)
    modify (λ s. record s { to_kids_found = found })
    lift (ensure (not (is_empty found)) ErrorKind.secret_not_found)

  unfoldable pub fill_envelope_from : ParsedJwe → Step K (Unit {0})
  unfolding fill_sender fill_recipients
  fill_envelope_from jwe = sender_or_anonymous jwe.apu >> fill_recipients jwe.to_kids

  abbrev pub from_parsed : ParsedEnvelope → Step K (Unit {0})
  from_parsed (ParsedEnvelope.jwe jwe) = fill_envelope_from jwe
  from_parsed (ParsedEnvelope.jws jws) = pure tt
  from_parsed (ParsedEnvelope.message m) = pure tt

  abbrev pub state_if_ok :
      Result ErrorKind (Unit {0}) × MetaEnvelope K → Result ErrorKind (MetaEnvelope K)
  state_if_ok (ok u, s) = ok s
  state_if_ok (err e, s) = err e
  state_if_ok (panic, s) = panic

  -- `MetaEnvelope::new`.
  unfoldable pub new : String → Result ErrorKind (MetaEnvelope K)
  unfolding fill_envelope_from parse_envelope verify_didcomm
  new msg = then_ok (to_didcomm (crates.serde.read_envelope msg)) λ envelope.
      then_ok (then_ok (parse_envelope envelope) verify_didcomm) λ parsed. state_if_ok (
        from_parsed parsed
          (record default_envelope { envelope = some envelope; parsed_envelope = some parsed }))
