-- ===== src/Didcomm/Unpack.antt =====
-- affinidi-messaging-didcomm/src/message/unpack/mod.rs, sign.rs and plaintext.rs: the layers of a
-- message taken off one after the other.
pub mod Steps
pub mod Limit
pub mod NonRepudiation
pub mod Signed
pub mod Decrypted
pub mod Opened
pub mod Sender
pub mod Authenticated
use affinidi_messaging.Common.{
  ℕ, zero, suc, ◌+◌, leb, String, Bool, true, false, not, ◌&&◌, ◌==◌, List, [], ◌∷◌, map, length,
  find, Option, none, some, from_utf8, ◌=ₛ◌, Result, ok, err, panic, Action, then_ok, ensure, pure,
  fail, lift, if◌then◌else◌,
}
use affinidi_messaging.Common.Steps.{◌>>=◌, ◌>>◌, modify}
use affinidi_messaging.Didcomm.Error.{ErrorKind, ok_or}
use affinidi_messaging.Didcomm.Message.{Message, validate}
use affinidi_messaging.Didcomm.Routing.{ParsedForward, try_parse_forward}
use affinidi_messaging.Didcomm.Keys.{Curve, VerificationMethod, Document, did_or_url, is_url}
use affinidi_messaging.Didcomm.Keys.Methods.{get_jwk, as_curve}
use affinidi_messaging.Didcomm.Wire.{
  SignAlg, JwsAlgorithm, JwsHeader, Signature, ParsedJws, ParsedEnvelope,
}
use affinidi_messaging.Didcomm.Crypto.{Crates}
use affinidi_messaging.Didcomm.Jws.{verify}
use affinidi_messaging.Didcomm.FromPrior.{curve_of_alg, unpack_from_prior}
use affinidi_messaging.Didcomm.Envelope.{
  UnpackMetadata, MetaEnvelope, Step, set_metadata, is_empty, open_envelope, new,
}
use affinidi_messaging.Didcomm.Unpack.Steps.{
  UnpackOptions, try_unpack_anoncrypt, try_unpack_authcrypt,
}

abbrev pub sign_alg_of : JwsAlgorithm → Option SignAlg
sign_alg_of JwsAlgorithm.ed_dsa = some SignAlg.ed_dsa
sign_alg_of JwsAlgorithm.es256 = some SignAlg.es256
sign_alg_of JwsAlgorithm.es256k = some SignAlg.es256k
sign_alg_of (JwsAlgorithm.other s) = none

abbrev first_header : List JwsHeader → Option JwsHeader
first_header [] = none
first_header (p ∷ ps) = some p

abbrev first_signature : List Signature → Option Signature
first_signature [] = none
first_signature (s ∷ ss) = some s

module _ {K : Type 0} (crates : Crates K) where
  -- The method of a signer whose document lists the key for authentication.
  unfoldable pub signer_key : String → Result ErrorKind VerificationMethod
  unfolding did_or_url
  signer_key signer_kid = then_ok (ensure (is_url signer_kid) ErrorKind.malformed) λ _.
      then_ok
        (ok_or ErrorKind.did_not_resolved (crates.resolvers.resolve (did_or_url signer_kid).0))
        λ doc.
          then_ok
            (ensure (crates.resolvers.contains_authentication doc signer_kid)
              ErrorKind.did_url_not_found)
            λ _.
              ok_or ErrorKind.did_url_not_found
                (find (λ vm. vm.id =ₛ signer_kid) doc.verification_method)

  abbrev pub signed_text : String → Result ErrorKind String
  signed_text payload =
      then_ok (ok_or ErrorKind.malformed (crates.crypto.base64_decode payload))
        λ bytes. ok_or ErrorKind.malformed (from_utf8 bytes)

  unfoldable pub unpack_jws : ParsedJws → Step K (Option ParsedEnvelope)
  unfolding signer_key get_jwk as_curve verify
  unpack_jws parsed = do
    lift (ensure (length parsed.protected == 1) ErrorKind.malformed)
    header ← lift (ok_or ErrorKind.invalid_state (first_header parsed.protected))
    signature ← lift (ok_or ErrorKind.invalid_state (first_signature parsed.jws.signatures))
    vm ← lift (signer_key signature.header.kid)
    found ← lift (get_jwk crates.keys vm)
    jwk ← lift (ok_or ErrorKind.no_compatible_crypto found)
    curve ← lift (curve_of_alg header.alg)
    modify (set_metadata λ md. record md { sign_alg = sign_alg_of header.alg })
    key ← lift (as_curve crates.keys curve jwk)
    valid ← lift (verify crates.crypto parsed curve signature.header.kid key)
    lift (ensure valid ErrorKind.malformed)
    payload ← lift (signed_text parsed.jws.payload)
    modify (
        set_metadata λ md. record md {
          authenticated = true;
          non_repudiation = true;
          sign_from = some signature.header.kid;
          signed_message = some parsed.jws;
        })
    e ← lift (open_envelope crates payload)
    pure (some e)

  unfoldable pub try_unpack_sign : ParsedEnvelope → Step K (Option ParsedEnvelope)
  unfolding unpack_jws
  try_unpack_sign (ParsedEnvelope.jws parsed) = unpack_jws parsed
  try_unpack_sign (ParsedEnvelope.jwe parsed) = pure none
  try_unpack_sign (ParsedEnvelope.message m) = pure none

  abbrev pub unpack_prior : Option String → Step K (Unit {0})
  unpack_prior none = pure tt
  unpack_prior (some from_prior) = do
    unpacked ← lift (unpack_from_prior crates from_prior)
    modify (
        set_metadata
          λ md. record md { from_prior = some unpacked.0; from_prior_issuer_kid = some unpacked.1 })

  unfoldable pub try_unpack_plaintext : ParsedEnvelope → Step K (Option Message)
  unfolding validate unpack_from_prior
  try_unpack_plaintext (ParsedEnvelope.message m) = do
    msg ← lift (validate m)
    unpack_prior msg.from_prior
    pure (some msg)
  try_unpack_plaintext (ParsedEnvelope.jwe parsed) = pure none
  try_unpack_plaintext (ParsedEnvelope.jws parsed) = pure none

  -- The key ids to look for: the one that is named, or all the DID agrees on keys with.
  abbrev agreement_kids : String × Option String → Result ErrorKind (List String)
  agreement_kids (did, some kid) = ok (kid ∷ [])
  agreement_kids (did, none) =
      then_ok (ok_or ErrorKind.did_not_resolved (crates.resolvers.resolve did))
        λ doc. ok (map (crates.keys.did_url_resolve doc.id) doc.key_agreement)

  unfoldable pub has_key_agreement_secret : String → Result ErrorKind Bool
  unfolding did_or_url
  has_key_agreement_secret did_or_kid = then_ok (agreement_kids (did_or_url did_or_kid)) λ kids.
      then_ok (crates.resolvers.find_secrets kids) λ secrets_ids. ok (not (is_empty secrets_ids))

  abbrev forwarded_text : Option ParsedForward → Result ErrorKind (Option String)
  forwarded_text none = ok none
  forwarded_text (some forward_msg) = then_ok (has_key_agreement_secret forward_msg.next) λ ours.
      if not ours
      then ok none
      else then_ok
          (ok_or ErrorKind.invalid_state (crates.serde.write_value forward_msg.forwarded_msg))
          λ text. ok (some text)

  unfoldable pub try_unwrap_forwarded_message : ParsedEnvelope → Result ErrorKind (Option String)
  unfolding try_parse_forward has_key_agreement_secret
  try_unwrap_forwarded_message (ParsedEnvelope.message m) = forwarded_text (try_parse_forward m)
  try_unwrap_forwarded_message _ = ok none

  module _ (options : UnpackOptions) where
    abbrev pub unwrapped : Option ParsedEnvelope → Result ErrorKind (Option String)
    unwrapped (some e) =
        if options.unwrap_re_wrapping_forward then try_unwrap_forwarded_message e else ok none
    unwrapped none = ok none

    abbrev pub current : Option ParsedEnvelope → ParsedEnvelope → ParsedEnvelope
    current (some e) before = e
    current none before = before

    abbrev End : Type 0
    End = Option (ParsedEnvelope × ℕ)

    -- What the loop does with the text of a forwarded message: it goes on, or ends.
    abbrev pub loop_on :
        (ParsedEnvelope → Step K End) → ParsedEnvelope × ℕ → Option String → Step K End
    loop_on again end none = pure (some end)
    loop_on again end (some text) = do
      modify (set_metadata λ md. record md { re_wrapped_in_forward = true })
      next ← lift (open_envelope crates text)
      again next

    -- The loop, by fuel: the envelope at its end and the number of operations, or `none` when the
    -- fuel runs out.
    unfoldable pub unpack_loop : ℕ → ℕ → ParsedEnvelope → Step K End
    unfolding try_unpack_anoncrypt try_unwrap_forwarded_message
    unpack_loop zero count parsed = pure none
    unpack_loop (suc fuel) count parsed = do
      lift (
          ensure (not (leb options.crypto_operations_limit_per_message (count + 1)))
            ErrorKind.too_many_crypto_operations)
      anoncrypted ← try_unpack_anoncrypt crates options parsed
      forwarded_msg ← lift (unwrapped anoncrypted)
      loop_on (unpack_loop fuel (count + 1)) (current anoncrypted parsed, count + 1) forwarded_msg

    -- Out of fuel stands for a loop that does not end.
    abbrev pub at_end : End → Step K (ParsedEnvelope × ℕ)
    at_end (some end) = pure end
    at_end none = lift panic

    unfoldable pub unpack_layers : ParsedEnvelope → Step K Message
    unfolding try_unpack_authcrypt try_unpack_sign try_unpack_plaintext unpack_loop
    unpack_layers parsed = do
      looped ← unpack_loop (suc options.crypto_operations_limit_per_message) 0 parsed
      end ← at_end looped
      authcrypted ← try_unpack_authcrypt crates options end.0 end.1
      signed ← try_unpack_sign (current authcrypted end.0)
      msg ← try_unpack_plaintext (current signed (current authcrypted end.0))
      lift (ok_or ErrorKind.malformed msg)

    -- `Message::unpack`.
    unfoldable pub unpack : Step K (Message × UnpackMetadata)
    unfolding unpack_layers
    unpack = do
      parsed ← (λ s. (ok_or ErrorKind.invalid_state s.parsed_envelope, s))
      msg ← unpack_layers parsed
      (λ s. (ok (msg, s.metadata), s))

    unfoldable pub unpack_string : String → Result ErrorKind (Message × UnpackMetadata)
    unfolding unpack new
    unpack_string msg = then_ok (new crates msg) λ envelope. (unpack envelope).0
