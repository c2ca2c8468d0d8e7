-- ===== src/Prelude/Text.antt =====
-- The case mappings of Go's `strings`, over the two Unicode tables that they read: the lower case of
-- a rune, and one chosen rune of each case-folding orbit. The tables are parameters.
use Prim.Native.Char.{Char, code}
use Prim.Native.String.{String}
use mathlib.Core.Bool.{Bool}
use mathlib.Core.Option.{Option, none, some}
use text.Mathlib.Text.{◌==◌ as str_eq}
use onegw.Prelude.Tests.{◌==◌, if◌then◌else◌}

pub record Unicode : Type 0 where
  pub lower : Char → Char
  pub fold : Char → Char

-- A string with each of its characters replaced by its image.
unfoldable pub map_runes : (Char → Char) → String → String
map_runes f String.[] = String.[]
map_runes f (String.◌∷◌ c s) = String.◌∷◌ (f c) (map_runes f s)

-- strings.ToLower
unfoldable pub to_lower : Unicode → String → String
unfolding map_runes
to_lower u s = map_runes u.lower s

-- strings.EqualFold
unfoldable pub equal_fold : Unicode → String → String → Bool
unfolding map_runes
equal_fold u s t = str_eq (map_runes u.fold s) (map_runes u.fold t)

-- strings.Cut at "/": the parts before and after the first slash, if there is one.
unfoldable pub cut_slash : String → Option (String × String)
cut_slash String.[] = none
cut_slash (String.◌∷◌ c s) =
    let rest = cut_slash s in
    if code c == b'/'
    then some (String.[], s)
    else elim rest [ none ↦ none | some (a, b) ↦ some (String.◌∷◌ c a, b) ]
