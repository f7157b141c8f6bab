-- ===== src/Didcomm/Keys/Methods.antt =====
-- affinidi-messaging-didcomm/src/document.rs: the key pair of a verification method.
use affinidi_messaging.Common.{
  String, Option, none, some, ◌=ₛ◌, Result, ok, err, then_ok, if◌then◌else◌,
}
use affinidi_messaging.Json.{Value, null, string, object, end, field, get, as_str}
use affinidi_messaging.Didcomm.Error.{ErrorKind, or_panic}
use affinidi_messaging.Didcomm.Keys.{
  Params, ec, okp, VerificationMethod, Curve, KnownKeyAlg, KnownKeyPair, as_known, KeyCrates,
  pair_of_alg,
}

module _ {K : Type 0} (crates : KeyCrates K) where
  abbrev then_some : {A B : Type 0} → Option A → (A → Option B) → Option B
  then_some none f = none
  then_some (some a) f = f a

  abbrev multikey : Option Value → Option Params
  multikey property = then_some property λ key. then_some (as_str key) λ text.
      then_some (crates.multibase_decode text) λ decoded.
        then_some (crates.multi_encoded decoded) λ multi. crates.jwk_from_multicodec multi

  abbrev web_key : Option Value → Result ErrorKind (Option Params)
  web_key property =
      then_ok (or_panic property)
        λ value. then_ok (or_panic (crates.jwk_from_value value)) λ params. ok (some params)

  -- `None` for a method without a key that can be read; a JsonWebKey2020 is unwrapped.
  unfoldable pub get_jwk : VerificationMethod → Result ErrorKind (Option Params)
  unfolding get
  get_jwk vm =
      if vm.type_ =ₛ "Multikey"
      then ok (multikey (get "publicKeyMultibase" vm.properties))
      else if vm.type_ =ₛ "JsonWebKey2020"
      then web_key (get "publicKeyJwk" vm.properties)
      else ok none

  abbrev curve_alg : Option String → KnownKeyAlg
  curve_alg (some curve) =
      if curve =ₛ "P-256"
      then KnownKeyAlg.p256
      else if curve =ₛ "secp256k1"
      then KnownKeyAlg.k256
      else KnownKeyAlg.unsupported
  curve_alg none = KnownKeyAlg.unsupported

  unfoldable pub key_alg : Params → KnownKeyAlg
  key_alg (ec curve x y) = curve_alg curve
  key_alg (okp curve x) =
      if curve =ₛ "Ed25519"
      then KnownKeyAlg.ed25519
      else if curve =ₛ "X25519"
      then KnownKeyAlg.x25519
      else KnownKeyAlg.unsupported
  key_alg _ = KnownKeyAlg.unsupported

  abbrev name_value : Option String → Value
  name_value none = null
  name_value (some curve) = string curve

  -- The match on the curve is that of `key_alg`.
  unfoldable pub as_key_pair : Params → Result ErrorKind (KnownKeyPair K)
  unfolding key_alg
  as_key_pair (ec curve x y) = pair_of_alg crates (key_alg (ec curve x y)) (
      object (
        field "kty" (string "EC") (field "crv" (name_value curve) (field "x" x (field "y" y end)))))
  as_key_pair (okp curve x) =
      pair_of_alg crates (key_alg (okp curve x))
        (object (field "kty" (string "OKP") (field "crv" (string curve) (field "x" x end))))
  as_key_pair _ = err ErrorKind.unsupported

  unfoldable pub as_curve : Curve → Params → Result ErrorKind K
  unfolding as_known
  as_curve curve params = as_known curve (key_alg params) (as_key_pair params)
