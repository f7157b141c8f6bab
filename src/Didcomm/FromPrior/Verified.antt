-- ===== src/Didcomm/FromPrior/Verified.antt =====
-- affinidi-messaging-didcomm/src/message/from_prior/unpack.rs: what a statement that unpacks was
-- checked for.
use affinidi_messaging.Common.{
  ℕ, String, true, List, find, some, from_utf8, ◌=ₛ◌, ◌≡◌, refl, ap, ◌∙◌, subst, Result, ok, err,
  panic, then_ok-eq-ok, ok-injective,
}
use affinidi_messaging.Didcomm.Error.{ErrorKind, Category, kind, ensure-eq-ok, ok_or-eq-ok}
use affinidi_messaging.Didcomm.Keys.{
  Curve, Params, VerificationMethod, Document, did_or_url, is_url,
}
use affinidi_messaging.Didcomm.Keys.Methods.{get_jwk, as_curve}
use affinidi_messaging.Didcomm.Wire.{ParsedCompactJws, FromPrior}
use affinidi_messaging.Didcomm.Crypto.{Crates}
use affinidi_messaging.Didcomm.Jws.{parse_compact, verify_compact}
use affinidi_messaging.Didcomm.FromPrior.{
  curve_of_alg, names, authentication_key, check_compact, read_payload, unpack_from_prior,
}

kind-eq-ok :
    {A : Type 0} (e : ErrorKind) (r : Result Category A) {a : A} → kind e r ≡ ok a → r ≡ ok a
kind-eq-ok e (ok a) h = cc
kind-eq-ok e (err x) h = cc
kind-eq-ok e panic h = cc

module _ {K : Type 0} (crates : Crates K) where
  -- The method is that of an authentication reference of the document, which names the key id.
  pub record IsListed (doc : Document) (kid : String) (vm : VerificationMethod) : Type 0 where
    pub reference : String
    pub listed : find (names crates doc kid) doc.authentication ≡ some reference
    pub method :
        find (λ v. v.id =ₛ crates.keys.did_url_resolve doc.id reference) doc.verification_method
        ≡ some vm

  -- The signature of the token is valid for the key of the method.
  pub record IsValid (parsed : ParsedCompactJws) (vm : VerificationMethod) : Type 0 where
    pub jwk : Params
    pub curve : Curve
    pub key : K
    pub has_jwk : get_jwk crates.keys vm ≡ ok (some jwk)
    pub of_alg : curve_of_alg parsed.parsed_header.alg ≡ ok curve
    pub has_key : as_curve crates.keys curve jwk ≡ ok key
    pub valid : verify_compact crates.crypto parsed curve key ≡ ok true

  -- The token is a JWT that holds the statement, and its signature under the key id is valid for a
  -- key that the document of the id's DID lists for authentication.
  pub record IsVerified (jwt : String) (prior : FromPrior) (kid : String) : Type 0 where
    pub parsed : ParsedCompactJws
    pub doc : Document
    pub vm : VerificationMethod
    pub bytes : List ℕ
    pub text : String
    pub is_jws : parse_compact crates.crypto crates.serde jwt ≡ ok parsed
    pub typ : (parsed.parsed_header.typ =ₛ "JWT") ≡ true
    pub signer : parsed.parsed_header.kid ≡ kid
    pub url : is_url kid ≡ true
    pub resolved : crates.resolvers.resolve (did_or_url kid).0 ≡ some doc
    pub listed : IsListed doc kid vm
    pub valid : IsValid parsed vm
    pub payload : crates.crypto.base64_decode parsed.payload ≡ some bytes
    pub is_text : from_utf8 bytes ≡ some text
    pub statement : crates.serde.read_from_prior text ≡ ok prior

  authentication_key-IsListed :
      (doc : Document) (kid : String) {vm : VerificationMethod}
      → authentication_key crates doc kid ≡ ok vm
      → IsListed doc kid vm
  authentication_key-IsListed doc kid h =
      let (reference, listed, h₁) = then_ok-eq-ok _ _ h in
      record { reference = reference; listed = ok_or-eq-ok _ _ listed; method = ok_or-eq-ok _ _ h₁ }

  check_compact-IsValid :
      (parsed : ParsedCompactJws) (vm : VerificationMethod)
      → check_compact crates parsed vm ≡ ok true
      → IsValid parsed vm
  check_compact-IsValid parsed vm h =
      let (found, has_jwk, h₁) = then_ok-eq-ok _ _ h in
      let (jwk, is_jwk, h₂) = then_ok-eq-ok _ _ h₁ in
      let (curve, of_alg, h₃) = then_ok-eq-ok _ _ h₂ in
      let (key, has_key, valid) = then_ok-eq-ok _ _ h₃ in
      record {
        jwk = jwk;
        curve = curve;
        key = key;
        has_jwk = has_jwk ∙ ap ok (ok_or-eq-ok found _ is_jwk);
        of_alg = of_alg;
        has_key = has_key;
        valid = valid;
      }

  pub unpack_from_prior-IsVerified :
      (jwt : String) (prior : FromPrior) (kid : String)
      → unpack_from_prior crates jwt ≡ ok (prior, kid)
      → IsVerified jwt prior kid
  unfolding unpack_from_prior
  unpack_from_prior-IsVerified jwt prior kid h =
      let (parsed, is_jws, h₁) = then_ok-eq-ok _ _ h in
      let (u, typ, h₂) = then_ok-eq-ok _ _ h₁ in
      let (u₁, url, h₃) = then_ok-eq-ok _ _ h₂ in
      let (doc, resolved, h₄) = then_ok-eq-ok _ _ h₃ in
      let (vm, listed, h₅) = then_ok-eq-ok _ _ h₄ in
      let (valid, checked, h₆) = then_ok-eq-ok _ _ h₅ in
      let (u₂, accepted, h₇) = then_ok-eq-ok _ _ h₆ in
      let (found, read, h₈) = then_ok-eq-ok (read_payload crates parsed.payload) _ h₇ in
      let (bytes, payload, h₉) = then_ok-eq-ok _ _ read in
      let (text, is_text, statement) = then_ok-eq-ok _ _ h₉ in
      subst (λ q. IsVerified jwt q.0 q.1) (ok-injective (found, parsed.parsed_header.kid) _ h₈)
        (record {
          parsed = parsed;
          doc = doc;
          vm = vm;
          bytes = bytes;
          text = text;
          is_jws = is_jws;
          typ = ensure-eq-ok _ _ typ;
          signer = refl;
          url = ensure-eq-ok _ _ url;
          resolved = ok_or-eq-ok _ _ resolved;
          listed = authentication_key-IsListed doc parsed.parsed_header.kid listed;
          valid = check_compact-IsValid parsed vm (checked ∙ ap ok (ensure-eq-ok valid _ accepted));
          payload = ok_or-eq-ok _ _ payload;
          is_text = ok_or-eq-ok _ _ is_text;
          statement = kind-eq-ok _ _ statement;
        })
