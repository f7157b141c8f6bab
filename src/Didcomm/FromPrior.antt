-- ===== src/Didcomm/FromPrior.antt =====
-- affinidi-messaging-didcomm/src/message/from_prior: the signed statement of a sender that its DID
-- has changed.
pub mod Pack
pub mod Verified
use affinidi_messaging.Common.{
  ℕ, String, Bool, List, [], ◌∷◌, find, Option, none, some, from_utf8, split, ◌=ₛ◌, Result, ok, err,
  panic, then_ok, ensure, not, ◌&&◌, ◌||◌,
}
use affinidi_messaging.Didcomm.Error.{ErrorKind, ok_or, kind}
use affinidi_messaging.Didcomm.Keys.{
  Curve, Params, VerificationMethod, Document, did_or_url, is_url, is_did,
}
use affinidi_messaging.Didcomm.Keys.Methods.{get_jwk, as_curve}
use affinidi_messaging.Didcomm.Wire.{JwsAlgorithm, CompactHeader, ParsedCompactJws, FromPrior}
use affinidi_messaging.Didcomm.Crypto.{Crates}
use affinidi_messaging.Didcomm.Jws.{parse_compact, verify_compact}

-- The type of key that an algorithm signs with.
abbrev pub curve_of_alg : JwsAlgorithm → Result ErrorKind Curve
curve_of_alg JwsAlgorithm.ed_dsa = ok Curve.ed25519
curve_of_alg JwsAlgorithm.es256 = ok Curve.p256
curve_of_alg JwsAlgorithm.es256k = ok Curve.k256
curve_of_alg (JwsAlgorithm.other s) = err ErrorKind.unsupported

module _ {K : Type 0} (crates : Crates K) where
  abbrev pub names : Document → String → String → Bool
  names doc kid reference = crates.keys.did_url_resolve doc.id reference =ₛ kid

  -- The method of the document that an authentication reference names by the key id.
  abbrev pub authentication_key : Document → String → Result ErrorKind VerificationMethod
  authentication_key doc kid =
      then_ok (ok_or ErrorKind.did_url_not_found (find (names doc kid) doc.authentication)) λ found.
        ok_or ErrorKind.did_url_not_found
          (find (λ vm. vm.id =ₛ crates.keys.did_url_resolve doc.id found) doc.verification_method)

  abbrev pub check_compact : ParsedCompactJws → VerificationMethod → Result ErrorKind Bool
  check_compact parsed vm = then_ok (get_jwk crates.keys vm) λ found.
      then_ok (ok_or ErrorKind.unsupported found) λ jwk.
        then_ok (curve_of_alg parsed.parsed_header.alg) λ curve.
          then_ok (as_curve crates.keys curve jwk)
            λ key. verify_compact crates.crypto parsed curve key

  abbrev pub read_payload : String → Result ErrorKind FromPrior
  read_payload payload =
      then_ok (ok_or ErrorKind.malformed (crates.crypto.base64_decode payload)) λ bytes.
        then_ok (ok_or ErrorKind.malformed (from_utf8 bytes))
          λ text. kind ErrorKind.malformed (crates.serde.read_from_prior text)

  unfoldable pub unpack_from_prior : String → Result ErrorKind (FromPrior × String)
  unfolding parse_compact did_or_url get_jwk as_curve verify_compact
  unpack_from_prior from_prior_jwt =
      then_ok (parse_compact crates.crypto crates.serde from_prior_jwt) λ parsed.
        then_ok (ensure (parsed.parsed_header.typ =ₛ "JWT") ErrorKind.malformed) λ _.
          then_ok (ensure (is_url parsed.parsed_header.kid) ErrorKind.malformed) λ _.
            then_ok
              (ok_or ErrorKind.did_not_resolved
                (crates.resolvers.resolve (did_or_url parsed.parsed_header.kid).0))
              λ doc. then_ok (authentication_key doc parsed.parsed_header.kid) λ vm.
                then_ok (check_compact parsed vm) λ valid.
                  then_ok (ensure valid ErrorKind.malformed) λ _.
                    then_ok (read_payload parsed.payload)
                      λ from_prior. ok (from_prior, parsed.parsed_header.kid)

-- `validate_pack`, the tests that a sender makes of its own statement.
abbrev is_plain_did : String → Bool
is_plain_did did = is_did did && not (is_url did)

abbrev pub issuer_matches : String → Option String → Result ErrorKind (Unit {0})
issuer_matches iss none = ok tt
issuer_matches iss (some kid) =
    then_ok (ensure (is_url kid) ErrorKind.illegal_argument)
      λ _. ensure ((did_or_url kid).0 =ₛ iss) ErrorKind.illegal_argument

unfoldable pub validate_pack : FromPrior → Option String → Result ErrorKind (Unit {0})
unfolding is_did did_or_url
validate_pack from_prior issuer_kid =
    then_ok (ensure (is_plain_did from_prior.iss) ErrorKind.malformed) λ _.
      then_ok (ensure (is_plain_did from_prior.sub) ErrorKind.malformed) λ _.
        then_ok (ensure (not (from_prior.iss =ₛ from_prior.sub)) ErrorKind.malformed)
          λ _. issuer_matches from_prior.iss issuer_kid
