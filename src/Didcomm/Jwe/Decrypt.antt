-- ===== src/Didcomm/Jwe/Decrypt.antt =====
-- affinidi-messaging-didcomm/src/jwe/decrypt.rs.
use affinidi_messaging.Common.{
  ℕ, String, Bool, true, false, List, [], ◌++◌, find, Option, none, some, as_bytes, ◌=ₛ◌, Result,
  ok, then_ok, ensure,
}
use affinidi_messaging.Didcomm.Error.{ErrorKind, ok_or}
use affinidi_messaging.Didcomm.Keys.{Curve}
use affinidi_messaging.Didcomm.Wire.{as_str, ParsedJwe, Recipient}
use affinidi_messaging.Didcomm.Crypto.{Crates, ContentKey, Kdf, derive_key, unwrap_key}
use affinidi_messaging.Didcomm.Jwe.{same_bytes}

-- The sender's key id is the agreement info, and there is none without a sender.
abbrev pub names_sender : {K : Type 0} → Option (String × K) → Option (List ℕ) → Bool
names_sender none none = true
names_sender (some sender) (some apu) = same_bytes (as_bytes sender.0) apu
names_sender _ _ = false

abbrev sender_key : {K : Type 0} → Option (String × K) → Option K
sender_key none = none
sender_key (some sender) = some sender.1

abbrev or_empty : Option (List ℕ) → List ℕ
or_empty none = []
or_empty (some bytes) = bytes

module _ {K : Type 0} (crates : Crates K) where
  abbrev decode_base64 : String → Result ErrorKind (List ℕ)
  decode_base64 s = ok_or ErrorKind.malformed (crates.crypto.base64_decode s)

  -- The content key and the tag.
  unfoldable unlock :
      ContentKey
      → Kdf
      → Curve
      → ParsedJwe
      → Option K
      → K
      → Recipient
      → Result ErrorKind (K × List ℕ)
  unfolding as_bytes derive_key unwrap_key
  unlock ce kdf ke parsed skey key recipient =
      then_ok (decode_base64 recipient.encrypted_key) λ encrypted_key.
        then_ok (ok_or ErrorKind.malformed (crates.keys.from_jwk ke parsed.protected.epk)) λ epk.
          then_ok (decode_base64 parsed.jwe.tag) λ tag.
            then_ok
              (derive_key crates.crypto kdf ke epk skey key (as_bytes (as_str parsed.protected.alg))
                (or_empty parsed.apu) parsed.apv tag true)
              λ kw. then_ok (unwrap_key crates.crypto ce kw encrypted_key) λ cek. ok (cek, tag)

  unfoldable open_content : ContentKey → ParsedJwe → K × List ℕ → Result ErrorKind (List ℕ)
  unfolding as_bytes
  open_content ce parsed (cek, tag) = then_ok (decode_base64 parsed.jwe.ciphertext) λ ciphertext.
      then_ok (decode_base64 parsed.jwe.iv) λ iv. ok_or ErrorKind.malformed (
        crates.crypto.decrypt_in_place ce cek (ciphertext ++ tag) iv
          (as_bytes parsed.jwe.protected))

  unfoldable pub decrypt :
      ContentKey
      → Kdf
      → Curve
      → ParsedJwe
      → Option (String × K)
      → String × K
      → Result ErrorKind (List ℕ)
  unfolding as_bytes unlock open_content
  decrypt ce kdf ke parsed sender recipient =
      then_ok (ensure (names_sender sender parsed.apu) ErrorKind.invalid_state) λ _.
        then_ok
          (ok_or ErrorKind.invalid_state
            (find (λ r. r.header.kid =ₛ recipient.0) parsed.jwe.recipients))
          λ found.
            then_ok (unlock ce kdf ke parsed (sender_key sender) recipient.1 found)
              λ unlocked. open_content ce parsed unlocked
