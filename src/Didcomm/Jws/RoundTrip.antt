-- ===== src/Didcomm/Jws/RoundTrip.antt =====
-- affinidi-messaging-didcomm/src/jws: what is signed is parsed and verified.
use affinidi_messaging.Common.{
  ℕ, String, true, List, [], ◌∷◌, some, ◌≡◌, refl, ap, ◌∙◌, subst, as_bytes, eq_refl, Result, ok,
  then_ok-eq-ok, ok-injective,
}
use affinidi_messaging.Didcomm.Error.{ErrorKind, ok_or, ok_or-eq-ok}
use affinidi_messaging.Didcomm.Keys.{Curve}
use affinidi_messaging.Didcomm.Wire.{JwsAlgorithm, JwsHeader, Jws, ParsedJws}
use affinidi_messaging.Didcomm.Crypto.{Crates, SignatureType}
use affinidi_messaging.Didcomm.Jws.{sig_type, sign_input, headers, parse, find_signature, verify}
use affinidi_messaging.Didcomm.Jws.Sign.{encode_text, signature_of, signed_jws}

module _ {K : Type 0} (crates : Crates K) (key public : K)
    (decodes : (bytes : List ℕ)
      → crates.crypto.base64_decode (crates.crypto.base64_encode bytes) ≡ some bytes)
    (reads : (header : JwsHeader) (text : String)
      → crates.serde.write_jws_header header ≡ some text
      → crates.serde.read_jws_header (as_bytes text) ≡ ok header)
    (verifies : (curve : Curve) (input signature : List ℕ) (type_ : SignatureType)
      → crates.crypto.create_signature curve key input type_ ≡ some signature
      → crates.crypto.verify_signature curve public input signature type_ ≡ some true) where
  abbrev header_of : JwsAlgorithm → JwsHeader
  header_of alg = record { typ = "application/didcomm-signed+json"; alg = alg }

  abbrev jws_of : String → String → List ℕ → List ℕ → Jws
  jws_of kid header payload signature = record {
    signatures =
        record {
          header = record { kid = kid };
          protected = encode_text crates header;
          signature = crates.crypto.base64_encode signature;
        }
        ∷ [];
    payload = crates.crypto.base64_encode payload;
  }

  signature_of-eq-ok :
      (curve : Curve) (type_ : SignatureType) (protected payload : String) {text : String}
      → signature_of crates curve key type_ protected payload ≡ ok text
      → (bytes : List ℕ) × (crates.crypto.create_signature curve key
            (sign_input crates.crypto protected payload)
            type_
          ≡ some bytes)
        × (crates.crypto.base64_encode bytes ≡ text)
  signature_of-eq-ok curve type_ protected payload h =
      let (bytes, e, h₁) = then_ok-eq-ok _ _ h in (bytes, ok_or-eq-ok _ _ e, ok-injective _ _ h₁)

  parse_of :
      (kid header : String) (payload signature : List ℕ) (alg : JwsAlgorithm)
      → crates.serde.write_jws_header (header_of alg) ≡ some header
      → parse crates.crypto crates.serde (jws_of kid header payload signature)
        ≡ ok (record { jws = jws_of kid header payload signature; protected = header_of alg ∷ [] })
  unfolding parse headers
  parse_of kid header payload signature alg writes =
      rw (decodes (as_bytes header), reads (header_of alg) header writes) refl

  verify_of :
      (curve : Curve) (kid header : String) (payload signature : List ℕ) (alg : JwsAlgorithm)
      (type_ : SignatureType)
      → sig_type alg ≡ ok type_
      → crates.crypto.create_signature curve key
          (sign_input crates.crypto
            (encode_text crates header)
            (crates.crypto.base64_encode payload))
          type_
        ≡ some signature
      → verify crates.crypto
          (record { jws = jws_of kid header payload signature; protected = header_of alg ∷ [] })
          curve
          kid
          public
        ≡ ok true
  unfolding verify find_signature
  verify_of curve kid header payload signature alg type_ typed signs =
      rw (eq_refl kid, typed, decodes signature, verifies curve _ signature type_ signs) refl

  -- What `parse` and `verify` make of a JWS.
  abbrev pub Reads : Jws → Curve → String → List ℕ → Type 0
  Reads jws curve kid payload =
      (parsed : ParsedJws) × (parse crates.crypto crates.serde jws ≡ ok parsed)
      × (parsed.jws ≡ jws)
      × (verify crates.crypto parsed curve kid public ≡ ok true)
      × (crates.crypto.base64_decode jws.payload ≡ some payload)

  -- A JWS that is signed with a key is parsed again, its signature under the key id is valid for
  -- the public key, and its payload is what was signed, if base64 and the JSON of the headers are
  -- read as they were written and askar_crypto verifies its own signatures.
  pub signed_jws-Reads :
      (payload : List ℕ) (curve : Curve) (kid : String) (alg : JwsAlgorithm) (jws : Jws)
      → signed_jws crates payload curve (kid, key) alg ≡ ok jws
      → Reads jws curve kid payload
  unfolding signed_jws
  signed_jws-Reads payload curve kid alg jws h =
      let (type_, typed, h₁) = then_ok-eq-ok (sig_type alg) _ h in
      let (header, e, h₂) =
        then_ok-eq-ok
          (ok_or ErrorKind.invalid_state (crates.serde.write_jws_header (header_of alg))) _ h₁ in
      let (text, signed, h₃) =
        then_ok-eq-ok
          (signature_of crates curve key type_ (encode_text crates header)
            (crates.crypto.base64_encode payload))
          _ h₂ in
      let (signature, signs, same) =
        signature_of-eq-ok curve type_ (encode_text crates header)
          (crates.crypto.base64_encode payload) signed in
      subst (λ j. Reads j curve kid payload) (whole kid header payload signature text jws same h₃)
        (
          record { jws = jws_of kid header payload signature; protected = header_of alg ∷ [] },
          parse_of kid header payload signature alg (ok_or-eq-ok _ _ e),
          refl,
          verify_of curve kid header payload signature alg type_ typed signs,
          decodes payload,
        )
    where
      whole :
          (kid header : String) (payload signature : List ℕ) (text : String) (jws : Jws)
          → crates.crypto.base64_encode signature ≡ text
          → Path
              (Result ErrorKind Jws)
              (ok (record {
                signatures =
                    record {
                      header = record { kid = kid };
                      protected = encode_text crates header;
                      signature = text;
                    }
                    ∷ [];
                payload = crates.crypto.base64_encode payload;
              }))
              (ok jws)
          → jws_of kid header payload signature ≡ jws
      whole kid header payload signature text jws same h =
          ap
            (λ t. record {
              signatures =
                  record {
                    header = record { kid = kid };
                    protected = encode_text crates header;
                    signature = t;
                  }
                  ∷ [];
              payload = crates.crypto.base64_encode payload;
            })
            same
          ∙ ok-injective _ jws h
