-- ===== src/Common/Utf8.antt =====
-- The standard library's `as_bytes` and `String::from_utf8`.
use Prim.Native.Nat.{ℕ, zero, suc, compare, Ordering, ◌+◌, ◌-◌, ◌*◌, ◌/◌, ◌%◌}
use Prim.Native.Char.{Char, char, code, IsScalar}
use Prim.Native.String.{String}
use mathlib.Core.Path.{◌≡◌, refl}
use mathlib.Core.Logic.{◌⊎◌, inl, inr}
use mathlib.Core.Bool.{Bool, true, false, ◌&&◌}
use mathlib.Core.Option.{Option, none, some}
use mathlib.Core.List.{List, [], ◌∷◌, ◌++◌}
use affinidi_messaging.Common.Tests.{leb, ltb, if◌then◌else◌}

-- The bytes of one character.
abbrev char_bytes : ℕ → List ℕ
char_bytes n =
    if ltb n 128
    then n ∷ []
    else if ltb n 2048
    then (192 + n / 64) ∷ (128 + n % 64) ∷ []
    else if ltb n 65536
    then (224 + n / 4096) ∷ (128 + n / 64 % 64) ∷ (128 + n % 64) ∷ []
    else (240 + n / 262144) ∷ (128 + n / 4096 % 64) ∷ (128 + n / 64 % 64) ∷ (128 + n % 64) ∷ []

unfoldable pub as_bytes : String → List ℕ
as_bytes String.[] = []
as_bytes (String.◌∷◌ c s) = char_bytes (code c) ++ as_bytes s

abbrev pub ordering_cases :
    (o : Ordering) → (o ≡ Ordering.lt) ⊎ ((o ≡ Ordering.eq) ⊎ (o ≡ Ordering.gt))
ordering_cases Ordering.lt = inl refl
ordering_cases Ordering.eq = inr (inl refl)
ordering_cases Ordering.gt = inr (inr refl)

pub scalar :
    (n : ℕ)
    → (compare n 55296 ≡ Ordering.eq) ⊎ (compare n 55296 ≡ Ordering.gt)
    → compare 57343 n ≡ Ordering.lt
    → compare n 1114112 ≡ Ordering.lt
    → IsScalar n
scalar n (inl e) low high = rw (e, low, high) tt
scalar n (inr e) low high = rw (e, low, high) tt

-- `char::from_u32`: no character has a surrogate's number, or one above 0x10FFFF.
unfoldable char_of : ℕ → Option Char
char_of n = elim (ordering_cases (compare n 55296)) [
  | inl below ↦ some (char n (rw below tt))
  | inr above ↦ elim (ordering_cases (compare 57343 n)) [
    | inl e ↦ elim (ordering_cases (compare n 1114112)) [
      | inl small ↦ some (char n (scalar n above e small))
      | inr big ↦ none
    ]
    | inr e ↦ none
  ]
]

abbrev push : Option Char → Option String → Option String
push (some c) (some s) = some (String.◌∷◌ c s)
push _ _ = none

abbrev within : ℕ → ℕ → ℕ → Bool
within low high b = leb low b && leb b high

-- What a first byte says: the character itself, or how many bytes follow, its first bits and the
-- least number that has no shorter form.
pub data Lead : Type 0 where
  alone : Lead
  followed : ℕ → ℕ → ℕ → Lead
  invalid : Lead

abbrev lead_of : ℕ → Lead
lead_of b =
    if ltb b 128
    then alone
    else if within 192 223 b
    then followed 1 (b - 192) 128
    else if within 224 239 b
    then followed 2 (b - 224) 2048
    else if within 240 247 b
    then followed 3 (b - 240) 65536
    else invalid

-- Reads bytes when `left` more of them belong to the character whose bits so far are `bits`.
unfoldable pub decode_from : ℕ → ℕ → ℕ → List ℕ → Option String
unfolding char_of
decode_from zero bits least [] = some ""
decode_from (suc left) bits least [] = none
decode_from zero bits least (b ∷ bs) = elim (lead_of b) [
  | alone ↦ push (char_of b) (decode_from zero 0 0 bs)
  | followed left bits least ↦ decode_from left bits least bs
  | invalid ↦ none
]
decode_from (suc zero) bits least (b ∷ bs) =
    elim (within 128 191 b && leb least (bits * 64 + (b - 128))) [
      | true ↦ push (char_of (bits * 64 + (b - 128))) (decode_from zero 0 0 bs)
      | false ↦ none
    ]
decode_from (suc (suc left)) bits least (b ∷ bs) = elim (within 128 191 b) [
  | true ↦ decode_from (suc left) (bits * 64 + (b - 128)) least bs
  | false ↦ none
]

abbrev pub from_utf8 : List ℕ → Option String
from_utf8 = decode_from 0 0 0

utf8_text : from_utf8 (as_bytes "a£€😀") ≡ some "a£€😀"
unfolding as_bytes decode_from
utf8_text = refl

utf8_surrogate : from_utf8 (237 ∷ 160 ∷ 128 ∷ []) ≡ none
unfolding decode_from
utf8_surrogate = refl

utf8_overlong : from_utf8 (192 ∷ 175 ∷ []) ≡ none
unfolding decode_from
utf8_overlong = refl
