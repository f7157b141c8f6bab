-- ===== src/Didcomm/Keys/Secrets.antt =====
-- affinidi-messaging-didcomm/src/document.rs: the key pair of a secret.
use affinidi_messaging.Common.{
  ℕ, String, Bool, false, ◌&&◌, ◌||◌, List, [], ◌∷◌, filter, Option, none, some, ◌=ₛ◌, Result, ok,
  err, then_ok, ensure, if◌then◌else◌,
}
use affinidi_messaging.Json.{Value, string, object, end, Fields, field, get, as_str}
use affinidi_messaging.Didcomm.Error.{ErrorKind, ok_or, bs58_to_didcomm}
use affinidi_messaging.Didcomm.Keys.{
  Curve, KnownKeyAlg, KnownKeyPair, as_known, SecretType, SecretMaterial, Secret, KeyCrates,
  pair_from_jwk, pair_of_alg,
}
use affinidi_messaging.Didcomm.Keys.Multicodec.{
  Codec, is_x25519_priv, is_ed25519_priv, split_at, from_multicodec,
}
use Prim.Native.String as Text
use Prim.Native.Char.{code}
use affinidi_messaging.Common.{◌==◌}

-- `value["key"].as_str()`.
abbrev text_member : Option Value → Option String
text_member (some v) = as_str v
text_member none = none

abbrev member : String → Value → Option String
member key (object fs) = text_member (get key fs)
member key _ = none

abbrev kty_crv : Option String → Option String → KnownKeyAlg
kty_crv (some kty) (some crv) =
    if (kty =ₛ "EC") && (crv =ₛ "P-256")
    then KnownKeyAlg.p256
    else if (kty =ₛ "EC") && (crv =ₛ "secp256k1")
    then KnownKeyAlg.k256
    else if (kty =ₛ "OKP") && (crv =ₛ "Ed25519")
    then KnownKeyAlg.ed25519
    else if (kty =ₛ "OKP") && (crv =ₛ "X25519")
    then KnownKeyAlg.x25519
    else KnownKeyAlg.unsupported
kty_crv _ _ = KnownKeyAlg.unsupported

unfoldable jwk_alg : Value → KnownKeyAlg
unfolding get
jwk_alg value = kty_crv (member "kty" value) (member "crv" value)

abbrev alg_of_material : SecretType → SecretMaterial → KnownKeyAlg
alg_of_material SecretType.json_web_key2020 (SecretMaterial.jwk value) = jwk_alg value
alg_of_material SecretType.x25519_key_agreement_key2019 (SecretMaterial.base58 value) =
    KnownKeyAlg.x25519
alg_of_material SecretType.ed25519_verification_key2018 (SecretMaterial.base58 value) =
    KnownKeyAlg.ed25519
alg_of_material SecretType.x25519_key_agreement_key2020 (SecretMaterial.multibase value) =
    KnownKeyAlg.x25519
alg_of_material SecretType.ed25519_verification_key2020 (SecretMaterial.multibase value) =
    KnownKeyAlg.ed25519
alg_of_material _ _ = KnownKeyAlg.unsupported

unfoldable pub secret_key_alg : Secret → KnownKeyAlg
unfolding jwk_alg
secret_key_alg secret = alg_of_material secret.type_ secret.secret_material

-- `value.starts_with('z')`, and the text behind that letter.
abbrev after_z : String → Result ErrorKind String
after_z (Text.◌∷◌ c rest) = if code c == b'z' then ok rest else err ErrorKind.illegal_argument
after_z Text.[] = err ErrorKind.illegal_argument

module _ {K : Type 0} (crates : KeyCrates K) where
  abbrev with_d : Option (List ℕ) → Fields
  with_d none = end
  with_d (some d) = field "d" (string (crates.base64_encode d)) end

  abbrev okp_jwk : String → List ℕ → Option (List ℕ) → Value
  okp_jwk crv x d = object (
      field "kty" (string "OKP")
        (field "crv" (string crv) (field "x" (string (crates.base64_encode x)) (with_d d))))

  -- A key from the bytes of its secret, which is then written and read as a JWK.
  unfoldable x25519_from_bytes : List ℕ → Result ErrorKind (KnownKeyPair K)
  x25519_from_bytes bytes =
      then_ok (ok_or ErrorKind.malformed (crates.from_secret_bytes Curve.x25519 bytes)) λ k.
        pair_from_jwk crates Curve.x25519 (
          okp_jwk "X25519" (crates.public_bytes Curve.x25519 k)
            (crates.secret_bytes Curve.x25519 k))

  -- The secret in the first 32 bytes, the public key behind it.
  unfoldable ed25519_from_bytes : List ℕ → Result ErrorKind (KnownKeyPair K)
  unfolding split_at
  ed25519_from_bytes bytes =
      then_ok (split_at 32 bytes)
        λ parts. pair_from_jwk crates Curve.ed25519 (okp_jwk "Ed25519" parts.1 (some parts.0))

  -- The bytes of a multibase text that begins with the right codec.
  unfoldable decode_multibase : (Codec → Bool) → String → Result ErrorKind (List ℕ)
  unfolding from_multicodec
  decode_multibase expected value = then_ok (after_z value) λ rest.
      then_ok (bs58_to_didcomm (crates.bs58_decode rest)) λ decoded.
        then_ok (from_multicodec crates decoded)
          λ found. then_ok (ensure (expected found.0) ErrorKind.illegal_argument) λ _. ok found.1

  abbrev pair_of_material : SecretType → SecretMaterial → Result ErrorKind (KnownKeyPair K)
  pair_of_material SecretType.json_web_key2020 (SecretMaterial.jwk value) =
      pair_of_alg crates (jwk_alg value) value
  pair_of_material SecretType.x25519_key_agreement_key2019 (SecretMaterial.base58 value) =
      then_ok (bs58_to_didcomm (crates.bs58_decode value)) x25519_from_bytes
  pair_of_material SecretType.ed25519_verification_key2018 (SecretMaterial.base58 value) =
      then_ok (bs58_to_didcomm (crates.bs58_decode value)) ed25519_from_bytes
  pair_of_material SecretType.x25519_key_agreement_key2020 (SecretMaterial.multibase value) =
      then_ok (decode_multibase is_x25519_priv value) x25519_from_bytes
  pair_of_material SecretType.ed25519_verification_key2020 (SecretMaterial.multibase value) =
      then_ok (decode_multibase is_ed25519_priv value) ed25519_from_bytes
  pair_of_material _ _ = err ErrorKind.unsupported

  unfoldable pub secret_as_key_pair : Secret → Result ErrorKind (KnownKeyPair K)
  unfolding jwk_alg x25519_from_bytes ed25519_from_bytes decode_multibase
  secret_as_key_pair secret = pair_of_material secret.type_ secret.secret_material

  unfoldable pub secret_as_curve : Curve → Secret → Result ErrorKind K
  unfolding as_known secret_key_alg
  secret_as_curve curve secret = as_known curve (secret_key_alg secret) (secret_as_key_pair secret)

-- `ExampleSecretsResolver`: the secrets are looked up in a list.
abbrev has_secret : List Secret → String → Bool
has_secret [] id = false
has_secret (s ∷ secrets) id = (s.id =ₛ id) || has_secret secrets id

unfoldable pub example_get_secret : List Secret → String → Result ErrorKind (Option Secret)
example_get_secret [] secret_id = ok none
example_get_secret (s ∷ known_secrets) secret_id =
    let rest = example_get_secret known_secrets secret_id in
    if s.id =ₛ secret_id then ok (some s) else rest

unfoldable pub example_find_secrets : List Secret → List String → Result ErrorKind (List String)
example_find_secrets known_secrets secret_ids = ok (filter (has_secret known_secrets) secret_ids)
