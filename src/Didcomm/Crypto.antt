-- ===== src/Didcomm/Crypto.antt =====
-- affinidi-messaging-didcomm/src/utils/crypto.rs: the derivation and the wrapping of keys, over
-- the functions of askar_crypto; and what else the library calls of other crates.
use affinidi_messaging.Common.{ℕ, String, Bool, List, Option, none, some, Result, err, then_ok}
use affinidi_messaging.Didcomm.Error.{ErrorKind, ok_or}
use affinidi_messaging.Didcomm.Keys.{
  Curve, Document, Service, VerificationMethod, Secret, KeyCrates,
}
use affinidi_messaging.Didcomm.Wire.{Serde}

-- `AesKey<A256CbcHs512>`, `Chacha20Key<XC20P>` and `AesKey<A256Gcm>`.
pub data ContentKey : Type 0 where
  a256cbc_hs512_key xc20p_key a256gcm_key : ContentKey

-- `EcdhEs` and `Ecdh1PU`.
pub data Kdf : Type 0 where
  ecdh_es ecdh_1pu : Kdf

pub data SignatureType : Type 0 where
  ed_dsa es256 es256k : SignatureType

-- askar_crypto, sha2 and base64. `from_es` is `from_key_derivation` of `EcdhEs::new`, and `from_1pu` of
-- `Ecdh1PU::new`, with their arguments in order.
pub record Crypto (K : Type 0) : Type 0 where
  pub sha256 : List ℕ → List ℕ
  pub base64_decode : String → Option (List ℕ)
  pub base64_encode : List ℕ → String
  pub from_es : Curve → K → K → List ℕ → List ℕ → List ℕ → Bool → Option K
  pub from_1pu : Curve → K → K → K → List ℕ → List ℕ → List ℕ → List ℕ → Bool → Option K
  pub kw_encrypt : K → List ℕ → Option (List ℕ)
  pub kw_decrypt : K → List ℕ → Option (List ℕ)
  pub cek_from_bytes : ContentKey → List ℕ → Option K
  pub cek_to_bytes : ContentKey → K → Option (List ℕ)
  pub encrypt_in_place : ContentKey → K → List ℕ → List ℕ → List ℕ → Option (List ℕ × ℕ)
  pub decrypt_in_place : ContentKey → K → List ℕ → List ℕ → List ℕ → Option (List ℕ)
  pub to_jwk_public : Curve → K → Option String
  pub create_signature : Curve → K → List ℕ → SignatureType → Option (List ℕ)
  pub verify_signature : Curve → K → List ℕ → List ℕ → SignatureType → Option Bool

-- The DID cache, the trait `SecretsResolver`, and the methods of `DocumentExt`.
pub record Resolvers : Type 0 where
  pub resolve : String → Option Document
  pub get_secret : String → Result ErrorKind (Option Secret)
  pub find_secrets : List String → Result ErrorKind (List String)
  pub contains_key_agreement : Document → String → Bool
  pub contains_authentication : Document → String → Bool
  pub get_verification_method : Document → String → Option VerificationMethod
  pub service : Document → String → Option Service
  pub find_key_agreement : Document → Option String → List String

pub record Crates (K : Type 0) : Type 0 where
  pub keys : KeyCrates K
  pub crypto : Crypto K
  pub serde : Serde
  pub resolvers : Resolvers

module _ {K : Type 0} (crypto : Crypto K) where
  -- The key that wraps the content key; only `Ecdh1PU` reads the sender's key and the tag.
  unfoldable pub derive_key :
      Kdf → Curve → K → Option K → K → List ℕ → List ℕ → List ℕ → List ℕ → Bool → Result ErrorKind K
  derive_key Kdf.ecdh_1pu ke ephem_key none recip_key alg apu apv cc_tag receive =
      err ErrorKind.invalid_state
  derive_key Kdf.ecdh_1pu ke ephem_key (some send_key) recip_key alg apu apv cc_tag receive =
      ok_or ErrorKind.invalid_state
        (crypto.from_1pu ke ephem_key send_key recip_key alg apu apv cc_tag receive)
  derive_key Kdf.ecdh_es ke ephem_key send_key recip_key alg apu apv cc_tag receive =
      ok_or ErrorKind.invalid_state (crypto.from_es ke ephem_key recip_key alg apu apv receive)

  unfoldable pub wrap_key : ContentKey → K → K → Result ErrorKind (List ℕ)
  wrap_key ce kw key =
      then_ok (ok_or ErrorKind.invalid_state (crypto.cek_to_bytes ce key))
        λ bytes. ok_or ErrorKind.invalid_state (crypto.kw_encrypt kw bytes)

  unfoldable pub unwrap_key : ContentKey → K → List ℕ → Result ErrorKind K
  unwrap_key ce kw ciphertext =
      then_ok (ok_or ErrorKind.malformed (crypto.kw_decrypt kw ciphertext))
        λ bytes. ok_or ErrorKind.malformed (crypto.cek_from_bytes ce bytes)
