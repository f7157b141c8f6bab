-- ===== src/Didcomm/Keys.antt =====
-- affinidi-messaging-didcomm/src/document.rs, utils/crypto.rs and secrets/mod.rs: documents of
-- DIDs, their verification methods, secrets, and the key pairs that both are read as. `K` stands
-- for the keys of askar_crypto, whatever their type.
pub mod Multicodec
pub mod Methods
pub mod Secrets
use affinidi_messaging.Common.{
  ℕ, String, Bool, true, false, not, ◌&&◌, List, [], ◌∷◌, length, leb, Option, none, some, split,
  split_once, ◌=ₛ◌, Result, ok, err, panic, then_ok, ensure, if◌then◌else◌,
}
use affinidi_messaging.Json.{Value, Fields}
use affinidi_messaging.Didcomm.Error.{ErrorKind, DecodeError, ok_or}

-- The types of key pair that the code is generic in: `Ed25519KeyPair` and so on.
pub data Curve : Type 0 where
  ed25519 x25519 p256 k256 : Curve

pub data KnownKeyAlg : Type 0 where
  ed25519 x25519 p256 k256 unsupported : KnownKeyAlg

pub data KnownKeyPair (K : Type 0) : Type 0 where
  ed25519 x25519 p256 k256 : K → KnownKeyPair K

abbrev pub same_alg : KnownKeyAlg → KnownKeyAlg → Bool
same_alg KnownKeyAlg.ed25519 KnownKeyAlg.ed25519 = true
same_alg KnownKeyAlg.x25519 KnownKeyAlg.x25519 = true
same_alg KnownKeyAlg.p256 KnownKeyAlg.p256 = true
same_alg KnownKeyAlg.k256 KnownKeyAlg.k256 = true
same_alg KnownKeyAlg.unsupported KnownKeyAlg.unsupported = true
same_alg _ _ = false

abbrev pub alg_of : Curve → KnownKeyAlg
alg_of Curve.ed25519 = KnownKeyAlg.ed25519
alg_of Curve.x25519 = KnownKeyAlg.x25519
alg_of Curve.p256 = KnownKeyAlg.p256
alg_of Curve.k256 = KnownKeyAlg.k256

abbrev pub pair_of : {K : Type 0} → Curve → K → KnownKeyPair K
pair_of Curve.ed25519 k = KnownKeyPair.ed25519 k
pair_of Curve.x25519 k = KnownKeyPair.x25519 k
pair_of Curve.p256 k = KnownKeyPair.p256 k
pair_of Curve.k256 k = KnownKeyPair.k256 k

abbrev key_of : {K : Type 0} → Curve → KnownKeyPair K → Result ErrorKind K
key_of Curve.ed25519 (KnownKeyPair.ed25519 k) = ok k
key_of Curve.x25519 (KnownKeyPair.x25519 k) = ok k
key_of Curve.p256 (KnownKeyPair.p256 k) = ok k
key_of Curve.k256 (KnownKeyPair.k256 k) = ok k
key_of _ _ = err ErrorKind.invalid_state

-- `as_ed25519`, `as_x25519`, `as_p256` and `as_k256`, of what `key_alg` and `as_key_pair` answer.
unfoldable pub as_known :
    {K : Type 0} → Curve → KnownKeyAlg → Result ErrorKind (KnownKeyPair K) → Result ErrorKind K
as_known curve alg pair =
    if not (same_alg alg (alg_of curve))
    then err ErrorKind.invalid_state
    else then_ok pair (key_of curve)

-- `ssi::JWK`: the parameters, as far as the code reads them. A coordinate stands as it is written
-- in JSON.
pub data Params : Type 0 where
  ec : Option String → Value → Value → Params
  okp : String → Value → Params
  rsa symmetric : Params

-- `DIDVerificationMethod`, and the parts of `ssi::dids::Document` that the code reads: the DID,
-- the services, the methods, and the references of two relationships.
pub record VerificationMethod : Type 0 where
  pub id : String
  pub type_ : String
  pub properties : Fields

-- A service endpoint is a URI or an object.
pub data Endpoint : Type 0 where
  uri : String → Endpoint
  map : Fields → Endpoint

pub record Service : Type 0 where
  pub id : String
  pub type_ : List String
  pub service_endpoint : Option (List Endpoint)

pub record Document : Type 0 where
  pub id : String
  pub service : List Service
  pub verification_method : List VerificationMethod
  pub authentication : List String
  pub key_agreement : List String

pub data SecretType : Type 0 where
  json_web_key2020 x25519_key_agreement_key2019 x25519_key_agreement_key2020 : SecretType
  ed25519_verification_key2018 ed25519_verification_key2020 : SecretType
  ecdsa_secp256k1_verification_key2019 other : SecretType

pub data SecretMaterial : Type 0 where
  jwk : Value → SecretMaterial
  multibase base58 : String → SecretMaterial

pub record Secret : Type 0 where
  pub id : String
  pub type_ : SecretType
  pub secret_material : SecretMaterial

-- What the code calls of ssi, bs58, varint and askar_crypto to read keys. `from_jwk` also writes
-- the JSON that it reads; `public_bytes` and `secret_bytes` are those that `with_public_bytes` and
-- `with_secret_bytes` show.
pub record KeyCrates (K : Type 0) : Type 0 where
  pub multibase_decode : String → Option (List ℕ)
  pub multi_encoded : List ℕ → Option (List ℕ)
  pub jwk_from_multicodec : List ℕ → Option Params
  pub jwk_from_value : Value → Option Params
  pub did_url_resolve : String → String → String
  pub bs58_decode : String → Result DecodeError (List ℕ)
  pub read_varint : List ℕ → Option ℕ
  pub write_varint : ℕ → Option (List ℕ)
  pub base64_encode : List ℕ → String
  pub from_jwk : Curve → Value → Option K
  pub from_secret_bytes : Curve → List ℕ → Option K
  pub public_bytes : Curve → K → List ℕ
  pub secret_bytes : Curve → K → Option (List ℕ)

module _ {K : Type 0} (crates : KeyCrates K) where
  abbrev pub pair_from_jwk : Curve → Value → Result ErrorKind (KnownKeyPair K)
  pair_from_jwk curve value =
      then_ok (ok_or ErrorKind.malformed (crates.from_jwk curve value)) λ k. ok (pair_of curve k)

  abbrev pub pair_of_alg : KnownKeyAlg → Value → Result ErrorKind (KnownKeyPair K)
  pair_of_alg KnownKeyAlg.ed25519 value = pair_from_jwk Curve.ed25519 value
  pair_of_alg KnownKeyAlg.x25519 value = pair_from_jwk Curve.x25519 value
  pair_of_alg KnownKeyAlg.p256 value = pair_from_jwk Curve.p256 value
  pair_of_alg KnownKeyAlg.k256 value = pair_from_jwk Curve.k256 value
  pair_of_alg KnownKeyAlg.unsupported value = err ErrorKind.unsupported

-- The DID of a DID or of a DID URL, and the whole text when it is a URL.
abbrev did_part : String → Option (String × String) → String × Option String
did_part text (some (did, rest)) = (did, some text)
did_part text none = (text, none)

unfoldable pub did_or_url : String → String × Option String
did_or_url text = did_part text (split_once b'#' text)

abbrev starts_with_did : List String → Bool
starts_with_did [] = false
starts_with_did (part ∷ parts) = part =ₛ "did"

unfoldable pub is_did : String → Bool
is_did did = leb 3 (length (split b':' did)) && starts_with_did (split b':' did)

abbrev pub is_url : String → Bool
is_url text = elim (did_or_url text).1 [ some url ↦ true | none ↦ false ]
