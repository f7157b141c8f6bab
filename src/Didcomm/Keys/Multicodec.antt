-- ===== src/Didcomm/Keys/Multicodec.antt =====
-- affinidi-messaging-didcomm/src/document.rs: `Codec` and `_from_multicodec`.
use affinidi_messaging.Common.{
  ℕ, zero, suc, ◌==◌, Bool, true, false, List, [], ◌∷◌, length, Result, ok, err, panic, then_ok,
  if◌then◌else◌,
}
use affinidi_messaging.Didcomm.Error.{ErrorKind, ok_or}
use affinidi_messaging.Didcomm.Keys.{KeyCrates}

pub data Codec : Type 0 where
  x25519_pub ed25519_pub x25519_priv ed25519_priv : Codec

abbrev pub is_x25519_priv : Codec → Bool
is_x25519_priv Codec.x25519_priv = true
is_x25519_priv _ = false

abbrev pub is_ed25519_priv : Codec → Bool
is_ed25519_priv Codec.ed25519_priv = true
is_ed25519_priv _ = false

abbrev codec_by_prefix : ℕ → Result ErrorKind Codec
codec_by_prefix value =
    if value == 236
    then ok Codec.x25519_pub
    else if value == 237
    then ok Codec.ed25519_pub
    else if value == 4866
    then ok Codec.x25519_priv
    else if value == 4864
    then ok Codec.ed25519_priv
    else err ErrorKind.illegal_argument

-- `split_at`, which panics behind the end.
unfoldable pub split_at : ℕ → List ℕ → Result ErrorKind (List ℕ × List ℕ)
split_at zero bytes = ok ([], bytes)
split_at (suc n) [] = panic
split_at (suc n) (b ∷ bytes) = then_ok (split_at n bytes) λ parts. ok (b ∷ parts.0, parts.1)

module _ {K : Type 0} (crates : KeyCrates K) where
  unfoldable pub from_multicodec : List ℕ → Result ErrorKind (Codec × List ℕ)
  unfolding split_at
  from_multicodec value =
      then_ok (ok_or ErrorKind.invalid_state (crates.read_varint value)) λ prefix_int.
        then_ok (codec_by_prefix prefix_int) λ codec.
          then_ok (ok_or ErrorKind.invalid_state (crates.write_varint prefix_int))
            λ prefix. then_ok (split_at (length prefix) value) λ parts. ok (codec, parts.1)
