-- ===== src/Prelude/Assoc.antt =====
-- A Go map with string keys, as an association list with one law for each operation.
use Prim.Native.String.{String}
use mathlib.Core.Path.{◌≡◌}
use mathlib.Core.List.{List, [], ◌∷◌}
use mathlib.Core.Option.{Option, none, some}
use native.Mathlib.Omega.{arith}
use text.Mathlib.Text.{◌==◌ as str_eq}
use text.Mathlib.TextEquality.{eq_iff}
use Prim.Native.Nat.{◌≤◌}
use mathlib.Core.Bool.{true}
use onegw.Prelude.Tests.{if◌then◌else◌}
use onegw.Prelude.Lists.{length}

-- The entries of a map, each key at most once.
abbrev pub Entries {ℓ} : Type ℓ → Type ℓ
Entries Value = List (String × Value)

pub str_eq_refl : (s : String) → str_eq s s ≡ true
str_eq_refl s = ground (arith, eq_iff s s)

module _ {ℓ} {Value : Type ℓ} where
  unfoldable pub lookup : String → Entries Value → Option Value
  lookup key [] = none
  lookup key (entry ∷ rest) =
      let deeper = lookup key rest in if str_eq entry.0 key then some entry.1 else deeper

  unfoldable pub delete : String → Entries Value → Entries Value
  delete key [] = []
  delete key (entry ∷ rest) =
      let kept = delete key rest in if str_eq entry.0 key then kept else entry ∷ kept

  -- The new entry stands first, and an entry of the same key is gone.
  unfoldable pub insert : String → Value → Entries Value → Entries Value
  insert key new entries = (key, new) ∷ delete key entries

  pub lookup-delete :
      (gone key : String) (entries : Entries Value)
      → lookup key (delete gone entries) ≡ (if str_eq gone key then none else lookup key entries)
  unfolding lookup delete
  lookup-delete gone key [] = ground arith
  lookup-delete gone key (entry ∷ rest) =
      ground (
        arith,
        eq_iff entry.0 gone,
        eq_iff entry.0 key,
        eq_iff gone key,
        lookup-delete gone key rest,
      )

  pub lookup-insert :
      (written key : String) (new : Value) (entries : Entries Value)
      → lookup key (insert written new entries)
        ≡ (if str_eq written key then some new else lookup key entries)
  unfolding lookup insert
  lookup-insert written key new entries = ground (arith, lookup-delete written key entries)

  pub length-delete :
      (key : String) (entries : Entries Value) → length (delete key entries) ≤ length entries
  unfolding delete
  length-delete key [] = omega arith
  length-delete key (entry ∷ rest) = ground (arith, length-delete key rest)
