-- ===== src/Didcomm/Jws/Sign.antt =====
-- affinidi-messaging-didcomm/src/jws/sign.rs.
use affinidi_messaging.Common.{ℕ, String, List, [], ◌∷◌, ◌⧺◌, as_bytes, Result, ok, then_ok}
use affinidi_messaging.Didcomm.Error.{ErrorKind, ok_or}
use affinidi_messaging.Didcomm.Keys.{Curve}
use affinidi_messaging.Didcomm.Wire.{JwsAlgorithm, Jws}
use affinidi_messaging.Didcomm.Crypto.{Crates, SignatureType}
use affinidi_messaging.Didcomm.Jws.{sig_type, sign_input}

module _ {K : Type 0} (crates : Crates K) where
  -- The text of a JSON header in base64.
  abbrev pub encode_text : String → String
  encode_text s = crates.crypto.base64_encode (as_bytes s)

  abbrev pub signature_of : Curve → K → SignatureType → String → String → Result ErrorKind String
  signature_of curve key type_ protected payload =
      then_ok
        (ok_or ErrorKind.invalid_state (
          crates.crypto.create_signature curve key (sign_input crates.crypto protected payload)
            type_))
        λ bytes. ok (crates.crypto.base64_encode bytes)

  unfoldable pub signed_jws : List ℕ → Curve → String × K → JwsAlgorithm → Result ErrorKind Jws
  unfolding as_bytes
  signed_jws payload curve signer alg = then_ok (sig_type alg) λ type_.
      then_ok
        (ok_or ErrorKind.invalid_state (
          crates.serde.write_jws_header
            (record { typ = "application/didcomm-signed+json"; alg = alg })))
        λ header.
          then_ok
            (signature_of curve signer.1 type_ (encode_text header)
              (crates.crypto.base64_encode payload))
            λ signature. ok (record {
              signatures =
                  record {
                    header = record { kid = signer.0 };
                    protected = encode_text header;
                    signature = signature;
                  }
                  ∷ [];
              payload = crates.crypto.base64_encode payload;
            })

  -- `sign`.
  unfoldable pub sign : List ℕ → Curve → String × K → JwsAlgorithm → Result ErrorKind String
  unfolding signed_jws
  sign payload curve signer alg =
      then_ok (signed_jws payload curve signer alg)
        λ jws. ok_or ErrorKind.invalid_state (crates.serde.write_jws jws)

  unfoldable pub sign_compact :
      List ℕ → Curve → String × K → String → JwsAlgorithm → Result ErrorKind String
  unfolding as_bytes
  sign_compact payload curve signer typ alg = then_ok (sig_type alg) λ type_.
      then_ok
        (ok_or ErrorKind.invalid_state
          (crates.serde.write_compact_header (record { typ = typ; alg = alg; kid = signer.0 })))
        λ header.
          then_ok
            (signature_of curve signer.1 type_ (encode_text header)
              (crates.crypto.base64_encode payload))
            λ signature.
              ok (encode_text header ⧺ "." ⧺ crates.crypto.base64_encode payload ⧺ "." ⧺ signature)
