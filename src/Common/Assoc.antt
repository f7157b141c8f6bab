-- ===== src/Common/Assoc.antt =====
-- `HashMap<String, V>` as an association list, newest entry first.
use Prim.Native.String.{String}
use mathlib.Core.Path.{◌≡◌}
use mathlib.Core.Option.{Option, none, some}
use mathlib.Core.List.{List, [], ◌∷◌}
use native.Mathlib.Omega.{arith}
use text.Mathlib.TextEquality.{eq_iff}
use text.Mathlib.Text.{◌==◌ as ◌=ₛ◌}
use affinidi_messaging.Common.Tests.{if◌then◌else◌}

module _ {ℓ} {V : Type ℓ} where
  unfoldable pub lookup : String → List (String × V) → Option V
  lookup key [] = none
  lookup key (entry ∷ entries) = if entry.0 =ₛ key then some entry.1 else lookup key entries

  unfoldable pub remove : String → List (String × V) → List (String × V)
  remove key [] = []
  remove key (entry ∷ entries) =
      let kept = remove key entries in if entry.0 =ₛ key then kept else entry ∷ kept

  unfoldable pub insert : String → V → List (String × V) → List (String × V)
  unfolding remove
  insert key value entries = (key, value) ∷ remove key entries

  pub lookup-remove :
      (gone key : String) (entries : List (String × V))
      → lookup key (remove gone entries) ≡ (if gone =ₛ key then none else lookup key entries)
  unfolding lookup remove
  lookup-remove gone key [] = ground arith
  lookup-remove gone key (entry ∷ entries) = ground (
    arith,
    lookup-remove gone key entries,
    eq_iff entry.0 key,
    eq_iff gone key,
    eq_iff entry.0 gone,
  )

  pub lookup-insert :
      (new key : String) (value : V) (entries : List (String × V))
      → lookup key (insert new value entries)
        ≡ (if new =ₛ key then some value else lookup key entries)
  unfolding insert lookup
  lookup-insert new key value entries = ground (lookup-remove new key entries, arith)
