-- ===== src/Didcomm/Jwe/Encrypt.antt =====
-- affinidi-messaging-didcomm/src/jwe/encrypt.rs, and `to_jwk_public_value` of jwk.rs.
use affinidi_messaging.Common.{
  ℕ, String, false, List, [], ◌∷◌, map, Option, none, some, sort, join_dots, as_bytes, Result, ok,
  then_ok,
}
use affinidi_messaging.Json.{Value}
use affinidi_messaging.Didcomm.Error.{ErrorKind, ok_or, kind}
use affinidi_messaging.Didcomm.Keys.{Curve}
use affinidi_messaging.Didcomm.Keys.Multicodec.{split_at}
use affinidi_messaging.Didcomm.Wire.{
  Algorithm, EncAlgorithm, as_str, ProtectedHeader, Recipient, Jwe,
}
use affinidi_messaging.Didcomm.Crypto.{Crates, ContentKey, Kdf, derive_key, wrap_key}
use affinidi_messaging.Didcomm.Jwe.{didcomm_apv}

-- The random values of one encryption: `CE::generate`, `KE::generate` and `CE::random_nonce`.
pub record Fresh (K : Type 0) : Type 0 where
  pub cek : Option K
  pub epk : Option K
  pub nonce : List ℕ

abbrev sender_id : {K : Type 0} → Option (String × K) → Option String
sender_id none = none
sender_id (some sender) = some sender.0

abbrev sender_key : {K : Type 0} → Option (String × K) → Option K
sender_key none = none
sender_key (some sender) = some sender.1

abbrev apu_bytes : Option String → List ℕ
apu_bytes none = []
apu_bytes (some skid) = as_bytes skid

module _ {K : Type 0} (crates : Crates K) where
  abbrev encode_text : String → String
  encode_text s = crates.crypto.base64_encode (as_bytes s)

  abbrev encoded : Option String → Option String
  encoded none = none
  encoded (some skid) = some (encode_text skid)

  unfoldable pub to_jwk_public_value : Curve → K → Result ErrorKind Value
  to_jwk_public_value ke key =
      then_ok (ok_or ErrorKind.malformed (crates.crypto.to_jwk_public ke key))
        λ jwk. kind ErrorKind.invalid_state (crates.serde.read_value jwk)

  unfoldable pub protected_header :
      Algorithm → EncAlgorithm → Option String → List ℕ → Value → ProtectedHeader
  unfolding as_bytes
  protected_header alg enc skid apv epk = record {
    typ = some "application/didcomm-encrypted+json";
    alg = alg;
    enc = enc;
    skid = skid;
    apu = encoded skid;
    apv = crates.crypto.base64_encode apv;
    epk = epk;
  }

  -- The content key, wrapped for every recipient.
  unfoldable pub encrypt_keys :
      (K → Result ErrorKind K)
      → ContentKey
      → K
      → List (String × K)
      → Result ErrorKind (List Recipient)
  encrypt_keys derive ce cek [] = ok []
  encrypt_keys derive ce cek ((kid, key) ∷ recipients) = then_ok (derive key) λ kw.
      then_ok (kind ErrorKind.invalid_state (wrap_key crates.crypto ce kw cek)) λ wrapped.
        then_ok (encrypt_keys derive ce cek recipients) λ more. ok (
          record {
            header = record { kid = kid };
            encrypted_key = crates.crypto.base64_encode wrapped;
          }
          ∷ more)

  abbrev kids_of : List (String × K) → List String
  kids_of recipients = map (λ r. r.0) recipients

  unfoldable pub encrypted_jwe :
      ContentKey
      → Kdf
      → Curve
      → List ℕ
      → Algorithm
      → EncAlgorithm
      → Option (String × K)
      → List (String × K)
      → Fresh K
      → Result ErrorKind Jwe
  unfolding as_bytes encrypt_keys split_at to_jwk_public_value protected_header sort join_dots
  encrypted_jwe ce kdf ke plaintext alg enc sender recipients fresh =
      then_ok (ok_or ErrorKind.invalid_state fresh.cek) λ cek.
        then_ok (ok_or ErrorKind.invalid_state fresh.epk) λ epk.
          then_ok (to_jwk_public_value ke epk) λ epk_value.
            then_ok
              (ok_or ErrorKind.invalid_state (
                crates.serde.write_protected (
                  protected_header alg enc (sender_id sender)
                    (didcomm_apv crates.crypto (kids_of recipients)) epk_value)))
              λ header.
                then_ok
                  (ok_or ErrorKind.invalid_state (
                    crates.crypto.encrypt_in_place ce cek plaintext fresh.nonce
                      (as_bytes (encode_text header))))
                  λ sealed. then_ok (split_at sealed.1 sealed.0) λ parts.
                    then_ok
                      (encrypt_keys
                        (λ key. kind ErrorKind.invalid_state (
                          derive_key crates.crypto kdf ke epk (sender_key sender) key
                            (as_bytes (as_str alg)) (apu_bytes (sender_id sender))
                            (didcomm_apv crates.crypto (kids_of recipients)) parts.1 false))
                        ce cek recipients)
                      λ encrypted_keys. ok (record {
                        protected = encode_text header;
                        recipients = encrypted_keys;
                        iv = crates.crypto.base64_encode fresh.nonce;
                        ciphertext = crates.crypto.base64_encode parts.0;
                        tag = crates.crypto.base64_encode parts.1;
                      })

  -- `encrypt`.
  unfoldable pub encrypt :
      ContentKey
      → Kdf
      → Curve
      → List ℕ
      → Algorithm
      → EncAlgorithm
      → Option (String × K)
      → List (String × K)
      → Fresh K
      → Result ErrorKind String
  unfolding encrypted_jwe
  encrypt ce kdf ke plaintext alg enc sender recipients fresh =
      then_ok (encrypted_jwe ce kdf ke plaintext alg enc sender recipients fresh)
        λ jwe. ok_or ErrorKind.invalid_state (crates.serde.write_jwe jwe)
