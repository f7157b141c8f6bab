-- ===== src/Didcomm/Toy.antt =====
-- Crates for which the hypotheses about other crates hold, for the concrete runs of the library.
use affinidi_messaging.Common.{
  ℕ, zero, suc, ◌+◌, String, Bool, true, false, List, [], ◌∷◌, find, ◌==◌, Option, none, some,
  as_bytes, ◌=ₛ◌, ◌≡◌, refl, sym, ap, ◌∙◌, Result, ok, err, if◌then◌else◌, eq_iff, arith,
}
use Prim.Native.String as Text
use Prim.Native.Char.{code}
use affinidi_messaging.Json.{Value, null, string, field, end}
use affinidi_messaging.Didcomm.Error.{Category}
use affinidi_messaging.Didcomm.Message.{Message, build, finalize, set_from}
use affinidi_messaging.Didcomm.Keys.{
  Curve, Params, okp, VerificationMethod, Document, Service, Endpoint, Secret, SecretType,
  SecretMaterial, KeyCrates,
}
use affinidi_messaging.Didcomm.Wire.{JwsAlgorithm, JwsHeader, FromPrior, Jws, Envelope, Serde}
use affinidi_messaging.Didcomm.Crypto.{Crypto, Resolvers, Crates, SignatureType}

-- A JWK is the name of its curve.
abbrev params_of : Value → Option Params
params_of (string crv) = some (okp crv null)
params_of _ = none

abbrev keys : KeyCrates ℕ
keys = record {
  multibase_decode = λ s. none;
  multi_encoded = λ b. none;
  jwk_from_multicodec = λ b. none;
  jwk_from_value = params_of;
  did_url_resolve = λ base reference. reference;
  bs58_decode = λ s. ok [];
  read_varint = λ b. none;
  write_varint = λ n. none;
  base64_encode = λ b. "e";
  from_jwk = λ c v. some 7;
  from_secret_bytes = λ c b. some 7;
  public_bytes = λ c k. [];
  secret_bytes = λ c k. some [];
}

abbrev is_one : List ℕ → Bool
is_one (suc zero ∷ []) = true
is_one _ = false

-- The signature of every text is the byte 1.
abbrev crypto : (String → Option (List ℕ)) → (List ℕ → String) → Crypto ℕ
crypto decode encode = record {
  sha256 = λ b. [];
  base64_decode = decode;
  base64_encode = encode;
  from_es = λ c e k a u v r. some 1;
  from_1pu = λ c e s k a u v t r. some 2;
  kw_encrypt = λ k b. some b;
  kw_decrypt = λ k b. some b;
  cek_from_bytes = λ c b. some 3;
  cek_to_bytes = λ c k. some [];
  encrypt_in_place = λ c k b n a. some (b, 0);
  decrypt_in_place = λ c k b n a. some b;
  to_jwk_public = λ c k. some "jwk";
  create_signature = λ c k b t. some (1 ∷ []);
  verify_signature = λ c k b s t. some (is_one s);
}

abbrev pub signer_kid : String
signer_kid = "did:t:a#k"

abbrev pub agreement_kid : String
agreement_kid = "did:t:a#x"

abbrev pub plain : Message
plain = finalize (set_from "did:t:a" (build "1" "ping" null))

abbrev pub moved : Message
moved = record (finalize (set_from "did:t:b" (build "2" "ping" null))) {
  from_prior = some "h.p.\u{1}";
}

abbrev pub signed : Jws
signed = record {
  signatures =
      record { header = record { kid = signer_kid }; protected = "h"; signature = "\u{1}" } ∷ [];
  payload = "plain";
}

abbrev read_envelope : String → Result Category Envelope
read_envelope text =
    if text =ₛ "plain"
    then ok (Envelope.message plain)
    else if text =ₛ "signed"
    then ok (Envelope.jws signed)
    else err Category.syntax

abbrev didcomm_typ : String
didcomm_typ = "application/didcomm-signed+json"

-- Only the header of EdDSA is written.
abbrev write_ed_dsa : Bool → JwsAlgorithm → Option String
write_ed_dsa true JwsAlgorithm.ed_dsa = some "h"
write_ed_dsa _ _ = none

abbrev pub ed_dsa_header : JwsHeader
ed_dsa_header = record { typ = didcomm_typ; alg = JwsAlgorithm.ed_dsa }

abbrev prior : FromPrior
prior = record {
  iss = "did:t:a";
  sub = "did:t:b";
  aud = none;
  exp = none;
  nbf = none;
  iat = none;
  jti = none;
}

abbrev serde : Serde
serde = record {
  read_envelope = read_envelope;
  read_protected = λ b. err Category.syntax;
  read_jws_header = λ b. ok ed_dsa_header;
  read_compact_header =
      λ b. ok (record { typ = "JWT"; alg = JwsAlgorithm.ed_dsa; kid = signer_kid });
  read_from_prior = λ s. ok prior;
  read_value = λ s. ok null;
  write_protected = λ h. some "header";
  write_jwe = λ j. some "jwe";
  write_jws_header = λ h. write_ed_dsa (h.typ =ₛ didcomm_typ) h.alg;
  write_jws = λ j. some "jws";
  write_compact_header = λ h. none;
  write_from_prior = λ f. none;
  write_message = λ m. some "text";
  write_value = λ v. none;
}

abbrev method : String → String → VerificationMethod
method id crv = record {
  id = id;
  type_ = "JsonWebKey2020";
  properties = field "publicKeyJwk" (string crv) end;
}

abbrev service : String → Service
service uri = record {
  id = "s";
  type_ = "DIDCommMessaging" ∷ [];
  service_endpoint = some (Endpoint.map (field "uri" (string uri) end) ∷ []);
}

abbrev document : String → String → Document
document id uri = record {
  id = id;
  service = service uri ∷ [];
  verification_method = method signer_kid "Ed25519" ∷ method agreement_kid "X25519" ∷ [];
  authentication = signer_kid ∷ [];
  key_agreement = agreement_kid ∷ [];
}

abbrev pub secret : Secret
secret = record {
  id = agreement_kid;
  type_ = SecretType.x25519_key_agreement_key2019;
  secret_material = SecretMaterial.base58 "secret";
}

-- The first DID has its service at a mediator's DID, every other one at a web address.
abbrev pub resolvers : Resolvers
resolvers = record {
  resolve = λ did. some (document did (if did =ₛ "did:t:a" then "did:t:m" else "https://m"));
  get_secret = λ kid. ok (some secret);
  find_secrets = λ kids. ok kids;
  contains_key_agreement = λ doc kid. true;
  contains_authentication = λ doc kid. true;
  get_verification_method = λ doc kid. find (λ vm. vm.id =ₛ kid) doc.verification_method;
  service = λ doc id. none;
  find_key_agreement = λ doc kid. doc.key_agreement;
}

abbrev with_base64 : (String → Option (List ℕ)) → (List ℕ → String) → Crates ℕ
with_base64 decode encode = record {
  keys = keys;
  crypto = crypto decode encode;
  serde = serde;
  resolvers = resolvers;
}

-- A text stands for its own bytes.
abbrev pub crates : Crates ℕ
crates = with_base64 (λ s. some (as_bytes s)) (λ b. "e")

-- Every byte as as many letters A, and a letter B.
abbrev letters : ℕ → String → String
letters zero rest = Text.◌∷◌ "B" rest
letters (suc n) rest = Text.◌∷◌ "A" (letters n rest)

unfoldable pub unary_encode : List ℕ → String
unary_encode [] = Text.[]
unary_encode (b ∷ bytes) = letters b (unary_encode bytes)

abbrev put_byte : ℕ → Option (List ℕ) → Option (List ℕ)
put_byte b none = none
put_byte b (some bytes) = some (b ∷ bytes)

unfoldable pub unary_decode : ℕ → String → Option (List ℕ)
unary_decode n Text.[] = some []
unary_decode n (Text.◌∷◌ c s) = elim (code c == 65) [
  | true ↦ unary_decode (suc n) s
  | false ↦ put_byte n (unary_decode 0 s)
]

abbrev pub unary_crates : Crates ℕ
unary_crates = with_base64 (unary_decode 0) unary_encode

letters-decode :
    (n b : ℕ) (rest : String)
    → unary_decode n (letters b rest) ≡ put_byte (n + b) (unary_decode 0 rest)
unfolding unary_decode
letters-decode n zero rest = ap (λ k. put_byte k (unary_decode 0 rest)) (omega arith)
letters-decode n (suc b) rest =
    letters-decode (suc n) b rest ∙ ap (λ k. put_byte k (unary_decode 0 rest)) (omega arith)

pub decodes : (bytes : List ℕ) → unary_decode 0 (unary_encode bytes) ≡ some bytes
unfolding unary_encode unary_decode
decodes [] = refl
decodes (b ∷ bytes) =
    letters-decode 0 b (unary_encode bytes)
    ∙ ap (λ k. put_byte k (unary_decode 0 (unary_encode bytes))) (omega arith)
    ∙ ap (put_byte b) (decodes bytes)

write_ed_dsa-some :
    (same : Bool) (typ text : String) (alg : JwsAlgorithm)
    → (same ≡ true → typ ≡ didcomm_typ)
    → write_ed_dsa same alg ≡ some text
    → Path (Result Category JwsHeader) (ok ed_dsa_header) (ok (record { typ = typ; alg = alg }))
write_ed_dsa-some true typ text JwsAlgorithm.ed_dsa is h =
    ap (λ t. ok (record { typ = t; alg = JwsAlgorithm.ed_dsa })) (sym (is refl))
write_ed_dsa-some true typ text JwsAlgorithm.es256 is h = cc
write_ed_dsa-some true typ text JwsAlgorithm.es256k is h = cc
write_ed_dsa-some true typ text (JwsAlgorithm.other x) is h = cc
write_ed_dsa-some false typ text alg is h = cc

same_typ : (typ : String) → (typ =ₛ didcomm_typ) ≡ true → typ ≡ didcomm_typ
same_typ typ h = ground (arith, eq_iff typ didcomm_typ)

pub reads :
    (header : JwsHeader) (text : String)
    → unary_crates.serde.write_jws_header header ≡ some text
    → unary_crates.serde.read_jws_header (as_bytes text) ≡ ok header
reads header text h =
    write_ed_dsa-some (header.typ =ₛ didcomm_typ) header.typ text header.alg (same_typ header.typ) h

pub verifies :
    (curve : Curve) (input signature : List ℕ) (type_ : SignatureType)
    → unary_crates.crypto.create_signature curve 7 input type_ ≡ some signature
    → unary_crates.crypto.verify_signature curve 7 input signature type_ ≡ some true
verifies curve input signature type_ h = ap (λ s. some (is_one s)) (sym (injective h))
  where
    injective : {s : List ℕ} → Path (Option (List ℕ)) (some (1 ∷ [])) (some s) → 1 ∷ [] ≡ s
    injective h = cc
