-- ===== src/Stream/Utf8.antt =====
-- `utf8.DecodeRune` of Go's library, as far as corrupt.go reads it, and `incompleteRune`.
use onegw.Prelude.{
  ℕ, suc, Bool, true, false, ◌&&◌, List, [], ◌∷◌, length, ltb, leb, ◌==◌, if◌then◌else◌,
}

abbrev pub between : ℕ → ℕ → ℕ → Bool
between lo hi b = leb lo b && leb b hi

-- A continuation byte, `c & 0xC0 == 0x80`.
abbrev pub is_cont : ℕ → Bool
is_cont b = between 0x80 0xBF b

-- How many bytes a rune has that begins with a byte; 0 for a byte that begins none.
unfoldable pub width : ℕ → ℕ
width b =
    if leb b 0x7F
    then 1
    else if between 0xC2 0xDF b
    then 2
    else if between 0xE0 0xEF b
    then 3
    else if between 0xF0 0xF4 b
    then 4
    else 0

-- The second byte of a rune: it keeps out overlong forms, surrogates and what is past U+10FFFF.
unfoldable pub second_fits : ℕ → ℕ → Bool
second_fits b c =
    if b == 0xE0
    then between 0xA0 0xBF c
    else if b == 0xED
    then between 0x80 0x9F c
    else if b == 0xF0
    then between 0x90 0xBF c
    else if b == 0xF4
    then between 0x80 0x8F c
    else is_cont c

-- The size of the rune at the head of some bytes, 0 where `DecodeRune` finds none.
unfoldable pub rune_size : List ℕ → ℕ
unfolding width second_fits
rune_size [] = 0
rune_size (b ∷ []) = if width b == 1 then 1 else 0
rune_size (b ∷ c ∷ []) =
    if width b == 1 then 1 else if (width b == 2) && second_fits b c then 2 else 0
rune_size (b ∷ c ∷ d ∷ []) =
    if width b == 1
    then 1
    else if (width b == 2) && second_fits b c
    then 2
    else if (width b == 3) && second_fits b c && is_cont d
    then 3
    else 0
rune_size (b ∷ c ∷ d ∷ e ∷ rest) =
    if width b == 1
    then 1
    else if (width b == 2) && second_fits b c
    then 2
    else if (width b == 3) && second_fits b c && is_cont d
    then 3
    else if (width b == 4) && second_fits b c && is_cont d && is_cont e
    then 4
    else 0

unfoldable pub all_cont : List ℕ → Bool
all_cont [] = true
all_cont (b ∷ bs) = let rest = all_cont bs in is_cont b && rest

-- How many bytes `incompleteRune` waits for after a head: 0 for none.
unfoldable pub needed : ℕ → ℕ
needed b =
    if between 0xC2 0xDF b
    then 2
    else if between 0xE0 0xEF b
    then 3
    else if between 0xF0 0xF4 b
    then 4
    else 0

-- `incompleteRune`: the head of a sequence that has not arrived yet.
unfoldable pub incomplete_rune : List ℕ → Bool
unfolding needed all_cont
incomplete_rune [] = false
incomplete_rune (b ∷ bs) = ltb (suc (length bs)) (needed b) && all_cont bs
