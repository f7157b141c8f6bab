-- ===== src/Didcomm/Jws.antt =====
-- affinidi-messaging-didcomm/src/jws/parse.rs and verify.rs: the parsing of a JWS in its two forms,
-- and the check of a signature.
pub mod Sign
pub mod RoundTrip
use affinidi_messaging.Common.{
  ℕ, zero, suc, String, Bool, true, false, List, [], ◌∷◌, Option, none, some, split, ◌⧺◌, as_bytes,
  ◌=ₛ◌, Result, ok, err, panic, then_ok,
}
use affinidi_messaging.Didcomm.Error.{ErrorKind, ok_or, to_didcomm, kind}
use affinidi_messaging.Didcomm.Keys.{Curve}
use affinidi_messaging.Didcomm.Wire.{
  JwsAlgorithm, JwsHeader, Signature, Jws, ParsedJws, CompactHeader, ParsedCompactJws, Serde,
}
use affinidi_messaging.Didcomm.Crypto.{Crypto, SignatureType}

unfoldable pub sig_type : JwsAlgorithm → Result ErrorKind SignatureType
sig_type JwsAlgorithm.ed_dsa = ok SignatureType.ed_dsa
sig_type JwsAlgorithm.es256 = ok SignatureType.es256
sig_type JwsAlgorithm.es256k = ok SignatureType.es256k
sig_type (JwsAlgorithm.other s) = err ErrorKind.unsupported

module _ {K : Type 0} (crypto : Crypto K) where
  abbrev decode_base64 : String → Result ErrorKind (List ℕ)
  decode_base64 s = ok_or ErrorKind.malformed (crypto.base64_decode s)

  module _ (serde : Serde) where
    -- The protected header of every signature.
    unfoldable pub headers : List Signature → Result ErrorKind (List JwsHeader)
    headers [] = ok []
    headers (s ∷ signatures) = then_ok (decode_base64 s.protected) λ bytes.
        then_ok (to_didcomm (serde.read_jws_header bytes))
          λ p. then_ok (headers signatures) λ ps. ok (p ∷ ps)

    unfoldable pub parse : Jws → Result ErrorKind ParsedJws
    unfolding headers
    parse jws =
        then_ok (headers jws.signatures)
          λ protected. ok (record { jws = jws; protected = protected })

    abbrev parse_segments : List String → Result ErrorKind ParsedCompactJws
    parse_segments (header ∷ payload ∷ signature ∷ []) = then_ok (decode_base64 header) λ buf.
        then_ok (kind ErrorKind.malformed (serde.read_compact_header buf)) λ parsed. ok (record {
          header = header;
          parsed_header = parsed;
          payload = payload;
          signature = signature;
        })
    parse_segments _ = err ErrorKind.malformed

    unfoldable pub parse_compact : String → Result ErrorKind ParsedCompactJws
    parse_compact compact_jws = parse_segments (split b'.' compact_jws)

  -- `format!("{}.{}")` of the header and the payload.
  abbrev pub sign_input : String → String → List ℕ
  sign_input protected payload = as_bytes (protected ⧺ "." ⧺ payload)

  abbrev pub check_signature : Curve → K → JwsAlgorithm → List ℕ → String → Result ErrorKind Bool
  check_signature curve key alg input signature = then_ok (sig_type alg) λ type_.
      then_ok (decode_base64 signature)
        λ bytes. ok_or ErrorKind.malformed (crypto.verify_signature curve key input bytes type_)

  -- The first signature under the key id, with its index.
  abbrev at_index : Bool → Signature → Option (ℕ × Signature) → Option (ℕ × Signature)
  at_index true s found = some (0, s)
  at_index false s (some (i, found)) = some (suc i, found)
  at_index false s none = none

  unfoldable pub find_signature : String → List Signature → Option (ℕ × Signature)
  find_signature kid [] = none
  find_signature kid (s ∷ signatures) =
      at_index (s.header.kid =ₛ kid) s (find_signature kid signatures)

  abbrev nth : List JwsHeader → ℕ → Option JwsHeader
  nth [] i = none
  nth (p ∷ ps) zero = some p
  nth (p ∷ ps) (suc i) = nth ps i

  unfoldable pub verify : ParsedJws → Curve → String → K → Result ErrorKind Bool
  unfolding find_signature as_bytes
  verify parsed curve kid key =
      then_ok (ok_or ErrorKind.invalid_state (find_signature kid parsed.jws.signatures)) λ found.
        then_ok (ok_or ErrorKind.invalid_state (nth parsed.protected found.0)) λ protected.
          check_signature curve key protected.alg (sign_input found.1.protected parsed.jws.payload)
            found.1.signature

  unfoldable pub verify_compact : ParsedCompactJws → Curve → K → Result ErrorKind Bool
  unfolding as_bytes
  verify_compact parsed curve key =
      check_signature curve key parsed.parsed_header.alg (sign_input parsed.header parsed.payload)
        parsed.signature
