-- ===== src/Didcomm/Jwe.antt =====
-- affinidi-messaging-didcomm/src/jwe: the parsing of a JWE, and the check of what names its
-- sender and its recipients.
pub mod Decrypt
pub mod Encrypt
use Prim.Native.String as Text
use Prim.Native.Char.{code}
use affinidi_messaging.Common.{
  ℕ, ◌==◌, String, Bool, true, false, not, ◌&&◌, List, [], ◌∷◌, map, Option, none, some, ◌=ₛ◌, sort,
  join_dots, as_bytes, from_utf8, Result, ok, err, panic, then_ok, ensure, if◌then◌else◌,
}
use affinidi_messaging.Didcomm.Error.{ErrorKind, ok_or, to_didcomm}
use affinidi_messaging.Didcomm.Wire.{ProtectedHeader, Recipient, Jwe, ParsedJwe, Serde}
use affinidi_messaging.Didcomm.Crypto.{Crypto}

-- `protected.replace('=', "")`.
unfoldable strip_padding : String → String
strip_padding Text.[] = ""
strip_padding (Text.◌∷◌ c s) =
    let rest = strip_padding s in if code c == b'=' then rest else Text.◌∷◌ c rest

abbrev pub same_bytes : List ℕ → List ℕ → Bool
same_bytes [] [] = true
same_bytes (a ∷ as') (b ∷ bs) = (a == b) && same_bytes as' bs
same_bytes _ _ = false

abbrev pub kid_of : Recipient → String
kid_of r = r.header.kid

-- `map` and `transpose`.
abbrev transpose :
    {A B : Type 0} → (A → Result ErrorKind B) → Option A → Result ErrorKind (Option B)
transpose f none = ok none
transpose f (some a) = then_ok (f a) λ b. ok (some b)

module _ {K : Type 0} (crypto : Crypto K) (serde : Serde) where
  abbrev decode_base64 : String → Result ErrorKind (List ℕ)
  decode_base64 s = ok_or ErrorKind.malformed (crypto.base64_decode s)

  unfoldable pub parse : Jwe → Result ErrorKind ParsedJwe
  unfolding strip_padding
  parse jwe = then_ok (decode_base64 (strip_padding jwe.protected)) λ decoded.
      then_ok (to_didcomm (serde.read_protected decoded)) λ protected.
        then_ok (decode_base64 protected.apv) λ apv.
          then_ok (transpose decode_base64 protected.apu) λ apu. ok (record {
            jwe = jwe;
            protected = protected;
            apu = apu;
            apv = apv;
            to_kids = map kid_of jwe.recipients;
          })

-- The hash of the sorted key ids of the recipients.
abbrev pub didcomm_apv : {K : Type 0} → Crypto K → List String → List ℕ
didcomm_apv crypto kids = crypto.sha256 (as_bytes (join_dots (sort kids)))

abbrev utf8 : List ℕ → Result ErrorKind String
utf8 bytes = ok_or ErrorKind.malformed (from_utf8 bytes)

abbrev apu_matches : Option String → Option String → Bool
apu_matches (some apu) (some skid) = apu =ₛ skid
apu_matches none (some skid) = false
apu_matches apu none = true

module _ {K : Type 0} (crypto : Crypto K) where
  unfoldable pub verify_jwe : ParsedJwe → Result ErrorKind ParsedJwe
  unfolding sort join_dots as_bytes
  verify_jwe jwe =
      then_ok
        (ensure (same_bytes jwe.apv (didcomm_apv crypto (map kid_of jwe.jwe.recipients)))
          ErrorKind.malformed)
        λ _. then_ok (transpose utf8 jwe.apu) λ apu.
          then_ok (ensure (apu_matches apu jwe.protected.skid) ErrorKind.malformed) λ _. ok jwe
