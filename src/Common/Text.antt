-- ===== src/Common/Text.antt =====
-- The standard library's `split` and `parse::<u64>`, over the characters of a text.
use Prim.Native.Nat.{ℕ, Ordering, ◌+◌, ◌-◌, ◌*◌, ◌^◌}
use Prim.Native.Char.{Char, code}
use text.Mathlib.TextLemmas.{nil-append, cons-append, head-eq_of_cons-eq}
use text.Mathlib.Text
use text.Mathlib.TextEquality.{eq_iff}
use native.Mathlib.Omega.{arith}
use mathlib.Core.Path.{◌≡◌, refl, sym, ap, ◌∙◌}
use mathlib.Core.Logic.{◌≢◌}
use Prim.Native.String
use Prim.Native.String.{String}
use mathlib.Core.Bool.{Bool, false, ◌&&◌}
use mathlib.Core.Option.{Option, none, some}
use mathlib.Core.List.{List, [], ◌∷◌}
use affinidi_messaging.Common.Tests.{leb, ltb, ◌==◌, if◌then◌else◌}

-- The first character joins the first part.
abbrev join_first : Char → List String → List String
join_first c [] = String.◌∷◌ c String.[] ∷ []
join_first c (part ∷ parts) = String.◌∷◌ c part ∷ parts

-- `s.split(sep)` for one ASCII character: one part more than there are separators.
unfoldable pub split : ℕ → String → List String
split sep String.[] = String.[] ∷ []
split sep (String.◌∷◌ c s) =
    let rest = split sep s in if code c == sep then String.[] ∷ rest else join_first c rest

abbrev is_digit : ℕ → Bool
is_digit c = leb b'0' c && leb c b'9'

-- The decimal digits after the value `acc`; a value that no `u64` holds is an error.
digits_from : ℕ → String → Option ℕ
digits_from acc String.[] = some acc
digits_from acc (String.◌∷◌ c s) =
    let rest = digits_from (acc * 10 + (code c - b'0')) s in
    if is_digit (code c) && ltb (acc * 10 + (code c - b'0')) (2 ^ 64) then rest else none

unfoldable digits : String → Option ℕ
unfolding digits_from
digits String.[] = none
digits (String.◌∷◌ c s) = digits_from 0 (String.◌∷◌ c s)

-- One plus sign may stand before the digits.
unfoldable pub parse_u64 : String → Option ℕ
unfolding digits
parse_u64 String.[] = none
parse_u64 (String.◌∷◌ c s) = if code c == b'+' then digits s else digits (String.◌∷◌ c s)

infixl 65 ◌⧺◌
abbrev pub ◌⧺◌ : String → String → String
◌⧺◌ = String.◌++◌

-- Texts that begin with different characters differ.
pub append-ne :
    (c : Char) (s t : String) (d : Char) (u : String)
    → code c ≢ code d
    → (String.◌∷◌ c s ⧺ t) ≢ String.◌∷◌ d u
append-ne c s t d u differ e = differ (ap code (head-eq_of_cons-eq (sym (cons-append c s t) ∙ e)))

pub =ₛ-false : (s t : String) → s ≢ t → (Text.◌==◌ s t) ≡ false
=ₛ-false s t differ = ground (arith, eq_iff s t)

-- No character of the text is the separator.
abbrev pub Lacks : ℕ → String → Type 0
Lacks sep String.[] = Unit {0}
Lacks sep (String.◌∷◌ c s) = ((code c == sep) ≡ false) × Lacks sep s

-- A text before the first separator is the first part.
pub split-append :
    (s t : String) (c : Char)
    → Lacks (code c) s
    → split (code c) (s ⧺ String.◌∷◌ c t) ≡ s ∷ split (code c) t
unfolding split
split-append String.[] t c h = rw nil-append (ground arith)
split-append (String.◌∷◌ d s) t c h =
    rw (cons-append d s (String.◌∷◌ c t), h.0, split-append s t c h.1)

-- `s.split_once(sep)`: the texts before and after the first separator.
abbrev add_first : Char → Option (String × String) → Option (String × String)
add_first c none = none
add_first c (some (before, after)) = some (String.◌∷◌ c before, after)

unfoldable pub split_once : ℕ → String → Option (String × String)
split_once sep String.[] = none
split_once sep (String.◌∷◌ c s) =
    let rest = split_once sep s in if code c == sep then some (String.[], s) else add_first c rest

-- `parts.join(".")`.
unfoldable pub join_dots : List String → String
join_dots [] = ""
join_dots (part ∷ []) = part
join_dots (part ∷ next ∷ parts) = part ⧺ "." ⧺ join_dots (next ∷ parts)

-- `sort` on texts, which has them in the order of their bytes.
unfoldable pub insert_sorted : String → List String → List String
insert_sorted s [] = s ∷ []
insert_sorted s (t ∷ ts) =
    let rest = insert_sorted s ts in
    elim (String.compare s t) [ Ordering.gt ↦ t ∷ rest | _ ↦ s ∷ t ∷ ts ]

unfoldable pub sort : List String → List String
unfolding insert_sorted
sort [] = []
sort (s ∷ ss) = insert_sorted s (sort ss)

-- A text without the separator has no part behind one, and a text with one is cut at the first.
pub split_once-none : (s : String) (sep : ℕ) → Lacks sep s → split_once sep s ≡ none
unfolding split_once
split_once-none String.[] sep h = refl
split_once-none (String.◌∷◌ c s) sep h = rw (h.0, split_once-none s sep h.1)

pub split_once-append :
    (s t : String) (c : Char)
    → Lacks (code c) s
    → split_once (code c) (s ⧺ String.◌∷◌ c t) ≡ some (s, t)
unfolding split_once
split_once-append String.[] t c h = rw nil-append (ground arith)
split_once-append (String.◌∷◌ d s) t c h =
    rw (cons-append d s (String.◌∷◌ c t), h.0, split_once-append s t c h.1)
