-- ===== src/Didcomm/FromPrior/Pack.antt =====
-- affinidi-messaging-didcomm/src/message/from_prior/pack.rs: the signing of a change of DID.
use affinidi_messaging.Common.{
  String, List, [], ◌∷◌, map, find, Option, none, some, as_bytes, ◌=ₛ◌, Result, ok, err, then_ok,
  ensure,
}
use affinidi_messaging.Didcomm.Error.{ErrorKind, ok_or}
use affinidi_messaging.Didcomm.Keys.{Curve, KnownKeyPair, Document, did_or_url}
use affinidi_messaging.Didcomm.Keys.Secrets.{secret_as_key_pair}
use affinidi_messaging.Didcomm.Wire.{JwsAlgorithm, FromPrior}
use affinidi_messaging.Didcomm.Crypto.{Crates}
use affinidi_messaging.Didcomm.Jws.Sign.{sign_compact}
use affinidi_messaging.Didcomm.FromPrior.{names, validate_pack}

-- The pairs that sign, with the algorithm of each.
abbrev pub signing : {K : Type 0} → KnownKeyPair K → Result ErrorKind (Curve × (K × JwsAlgorithm))
signing (KnownKeyPair.ed25519 k) = ok (Curve.ed25519, (k, JwsAlgorithm.ed_dsa))
signing (KnownKeyPair.p256 k) = ok (Curve.p256, (k, JwsAlgorithm.es256))
signing (KnownKeyPair.k256 k) = ok (Curve.k256, (k, JwsAlgorithm.es256k))
signing (KnownKeyPair.x25519 k) = err ErrorKind.unsupported

abbrev pub first_or : ErrorKind → List String → Result ErrorKind String
first_or e [] = err e
first_or e (kid ∷ kids) = ok kid

module _ {K : Type 0} (crates : Crates K) where
  abbrev kid_or_illegal : Option String → Result ErrorKind String
  kid_or_illegal kid = ok_or ErrorKind.illegal_argument kid

  -- The key ids that the document lists, or the one that is asked for.
  unfoldable pub authentication_kids :
      FromPrior → Document → Option String → Result ErrorKind (List String)
  unfolding did_or_url
  authentication_kids from_prior doc (some issuer_kid) =
      then_ok (kid_or_illegal (did_or_url issuer_kid).1) λ kid.
        then_ok (ensure ((did_or_url issuer_kid).0 =ₛ from_prior.iss) ErrorKind.illegal_argument)
          λ _.
            then_ok
              (ok_or ErrorKind.did_url_not_found (find (names crates doc kid) doc.authentication))
              λ found. ok (crates.keys.did_url_resolve doc.id found ∷ [])
  authentication_kids from_prior doc none =
      ok (map (crates.keys.did_url_resolve doc.id) doc.authentication)

  unfoldable pub pack_from_prior : FromPrior → Option String → Result ErrorKind (String × String)
  unfolding validate_pack authentication_kids secret_as_key_pair sign_compact as_bytes
  pack_from_prior from_prior issuer_kid = then_ok (validate_pack from_prior issuer_kid) λ _.
      then_ok (ok_or ErrorKind.invalid_state (crates.serde.write_from_prior from_prior)) λ text.
        then_ok (ok_or ErrorKind.did_not_resolved (crates.resolvers.resolve from_prior.iss)) λ doc.
          then_ok (authentication_kids from_prior doc issuer_kid) λ kids.
            then_ok (crates.resolvers.find_secrets kids) λ found.
              then_ok (first_or ErrorKind.secret_not_found found) λ kid.
                then_ok (crates.resolvers.get_secret kid) λ secret_found.
                  then_ok (ok_or ErrorKind.secret_not_found secret_found) λ secret.
                    then_ok (secret_as_key_pair crates.keys secret) λ sign_key.
                      then_ok (signing sign_key) λ key.
                        then_ok
                          (sign_compact crates (as_bytes text) key.0 (kid, key.1.0) "JWT" key.1.1)
                          λ jwt. ok (jwt, kid)
