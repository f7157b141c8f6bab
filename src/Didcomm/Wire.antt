-- ===== src/Didcomm/Wire.antt =====
-- affinidi-messaging-didcomm/src: the types of jwe/envelope.rs, jws/envelope.rs, algorithms.rs,
-- message/from_prior/mod.rs and envelope.rs that are read and written as JSON, and what they are
-- parsed to.
use affinidi_messaging.Common.{ℕ, String, List, Option, Result}
use affinidi_messaging.Json.{Value}
use affinidi_messaging.Didcomm.Error.{Category}
use affinidi_messaging.Didcomm.Message.{Message}

pub data AnonCryptAlg : Type 0 where
  a256cbc_hs512_ecdh_es_a256kw xc20p_ecdh_es_a256kw a256gcm_ecdh_es_a256kw : AnonCryptAlg

pub data AuthCryptAlg : Type 0 where
  a256cbc_hs512_ecdh1pu_a256kw : AuthCryptAlg

pub data SignAlg : Type 0 where
  ed_dsa es256 es256k : SignAlg

-- `jwe::Algorithm`, `jwe::EncAlgorithm` and `jws::Algorithm`.
pub data Algorithm : Type 0 where
  ecdh1pu_a256kw ecdh_es_a256kw : Algorithm
  other : String → Algorithm

pub data EncAlgorithm : Type 0 where
  a256cbc_hs512 xc20p a256gcm : EncAlgorithm
  other : String → EncAlgorithm

pub data JwsAlgorithm : Type 0 where
  ed_dsa es256 es256k : JwsAlgorithm
  other : String → JwsAlgorithm

abbrev pub as_str : Algorithm → String
as_str Algorithm.ecdh1pu_a256kw = "ECDH-1PU+A256KW"
as_str Algorithm.ecdh_es_a256kw = "ECDH-ES+A256KW"
as_str (Algorithm.other s) = s

pub record ProtectedHeader : Type 0 where
  pub typ : Option String
  pub alg : Algorithm
  pub enc : EncAlgorithm
  pub skid : Option String
  pub apu : Option String
  pub apv : String
  pub epk : Value

pub record PerRecipientHeader : Type 0 where
  pub kid : String

pub record Recipient : Type 0 where
  pub header : PerRecipientHeader
  pub encrypted_key : String

pub record Jwe : Type 0 where
  pub protected : String
  pub recipients : List Recipient
  pub iv : String
  pub ciphertext : String
  pub tag : String

pub record ParsedJwe : Type 0 where
  pub jwe : Jwe
  pub protected : ProtectedHeader
  pub apu : Option (List ℕ)
  pub apv : List ℕ
  pub to_kids : List String

pub record JwsHeader : Type 0 where
  pub typ : String
  pub alg : JwsAlgorithm

pub record Header : Type 0 where
  pub kid : String

pub record Signature : Type 0 where
  pub header : Header
  pub protected : String
  pub signature : String

pub record Jws : Type 0 where
  pub signatures : List Signature
  pub payload : String

pub record ParsedJws : Type 0 where
  pub jws : Jws
  pub protected : List JwsHeader

pub record CompactHeader : Type 0 where
  pub typ : String
  pub alg : JwsAlgorithm
  pub kid : String

pub record ParsedCompactJws : Type 0 where
  pub header : String
  pub parsed_header : CompactHeader
  pub payload : String
  pub signature : String

pub record FromPrior : Type 0 where
  pub iss : String
  pub sub : String
  pub aud : Option String
  pub exp : Option ℕ
  pub nbf : Option ℕ
  pub iat : Option ℕ
  pub jti : Option String

pub data Envelope : Type 0 where
  jwe : Jwe → Envelope
  jws : Jws → Envelope
  message : Message → Envelope

pub data ParsedEnvelope : Type 0 where
  jwe : ParsedJwe → ParsedEnvelope
  jws : ParsedJws → ParsedEnvelope
  message : Message → ParsedEnvelope

-- What serde_json reads and writes for these types.
pub record Serde : Type 0 where
  pub read_envelope : String → Result Category Envelope
  pub read_protected : List ℕ → Result Category ProtectedHeader
  pub read_jws_header : List ℕ → Result Category JwsHeader
  pub read_compact_header : List ℕ → Result Category CompactHeader
  pub read_from_prior : String → Result Category FromPrior
  pub read_value : String → Result Category Value
  pub write_protected : ProtectedHeader → Option String
  pub write_jwe : Jwe → Option String
  pub write_jws_header : JwsHeader → Option String
  pub write_jws : Jws → Option String
  pub write_compact_header : CompactHeader → Option String
  pub write_from_prior : FromPrior → Option String
  pub write_message : Message → Option String
  pub write_value : Value → Option String
