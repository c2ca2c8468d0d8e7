-- ===== src/Errors/Window.antt =====
-- `RateWindow` of types.go: the window that the text of a 429 names, in nanoseconds of 64 bits, and the
-- seconds that provider.go makes of it.
use Prim.Native.Char.{Char, code}
use Prim.Native.String.{String, ◌++◌}
use onegw.Prelude.{
  ℕ, zero, suc, ◌+◌, ◌-◌, ◌*◌, ◌/◌, ◌%◌, ◌^◌, Bool, ◌&&◌, ◌||◌, Option, none, some, ◌>>=◌, str_eq,
  ltb, leb, ◌==◌, if◌then◌else◌,
}
use onegw.Prelude.Text.{Unicode}
use onegw.Prelude.Int.{ℤ, pos, negsuc}
use onegw.Errors.Texts.{after}

-- `\s` and `\d`
abbrev pub is_blank : Char → Bool
is_blank c = (code c == 9) || (code c == 10) || (code c == 12) || (code c == 13) || (code c == 32)

abbrev pub is_digit : Char → Bool
is_digit c = leb b'0' (code c) && leb (code c) b'9'

-- The longest head of runes of some kind, and what follows it.
unfoldable pub span : (Char → Bool) → String → String × String
span good String.[] = (String.[], String.[])
span good (String.◌∷◌ c s) =
    let rest = span good s in
    if good c then (String.◌∷◌ c (rest.0), rest.1) else (String.[], String.◌∷◌ c s)

-- The same of at least one.
unfoldable pub span1 : (Char → Bool) → String → Option (String × String)
unfolding span
span1 good s = let r = span good s in if str_eq (r.0) "" then none else some r

unfoldable pub blanks : String → Option String
unfolding span1
blanks s = elim (span1 is_blank s) [ none ↦ none | some r ↦ some (r.1) ]

-- The first of some words at the head of a text, as the text spells it; the first argument is a text
-- that is as long as the word.
unfoldable pub spelt : String → String → String
spelt String.[] s = String.[]
spelt (String.◌∷◌ c lit) String.[] = String.[]
spelt (String.◌∷◌ c lit) (String.◌∷◌ d s) = String.◌∷◌ d (spelt lit s)

module _ (u : Unicode) where
  -- A literal whose last rune may be missing: `requests?`.
  unfoldable pub optional_s : String → String
  unfolding after
  optional_s s = elim (after u "s" s) [ none ↦ s | some rest ↦ rest ]

  unfoldable pub unit : String → Option String
  unfolding after spelt
  unit s = elim (after u "second" s) [
    | some rest ↦ some (spelt "second" s)
    | none ↦ elim (after u "minute" s) [
      | some rest ↦ some (spelt "minute" s)
      | none ↦ elim (after u "hour" s) [ some rest ↦ some (spelt "hour" s) | none ↦ none ]
    ]
  ]

  -- `rateWindowRe` at the head of a text: its two groups.
  unfoldable pub window_here : String → Option (String × String)
  unfolding after blanks span1 optional_s unit
  window_here s = do
    a ← after u "maximum" s
    b ← blanks a
    c ← span1 is_digit b
    d ← blanks (c.1)
    e ← after u "request" d
    f ← blanks (optional_s e)
    g ← after u "within" f
    h ← blanks g
    i ← span1 is_digit h
    j ← blanks (i.1)
    k ← unit j
    some (i.0, k)

  unfoldable pub find_window : String → Option (String × String)
  unfolding window_here
  find_window String.[] = none
  find_window (String.◌∷◌ c s) =
      let later = find_window s in
      elim (window_here (String.◌∷◌ c s)) [ none ↦ later | some w ↦ some w ]

-- The value of some digits.
unfoldable pub digits : ℕ → String → ℕ
digits n String.[] = n
digits n (String.◌∷◌ c s) = digits (n * 10 + (code c - b'0')) s

-- `strconv.Atoi` of digits: what does not fit is an error.
unfoldable pub atoi : String → Option ℕ
unfolding digits
atoi s = let n = digits 0 s in if ltb n (2 ^ 63) then some n else none

-- A signed integer of 64 bits.
unfoldable pub int64 : ℕ → ℤ
int64 n = let m = n % 2 ^ 64 in if ltb m (2 ^ 63) then pos m else negsuc (2 ^ 64 - m - 1)

abbrev pub nanoseconds : String → ℕ
nanoseconds name =
    if str_eq name "second"
    then 1000000000
    else if str_eq name "minute"
    then 60000000000
    else 3600000000000

-- `RateWindow` of a code and a message.
unfoldable pub rate_window : Unicode → String → String → ℤ
unfolding find_window atoi int64
rate_window u c message = elim (find_window u (c ++ " " ++ message)) [
  | none ↦ pos 0
  | some (count, name) ↦ elim (atoi count) [
    | none ↦ pos 0
    | some n ↦ if n == 0 then pos 0 else int64 (n * nanoseconds name)
  ]
]

abbrev digit_text : ℕ → String
digit_text n =
    if n == 0
    then "0"
    else if n == 1
    then "1"
    else if n == 2
    then "2"
    else if n == 3
    then "3"
    else if n == 4
    then "4"
    else if n == 5
    then "5"
    else if n == 6
    then "6"
    else if n == 7
    then "7"
    else if n == 8
    then "8"
    else "9"

-- `strconv.FormatInt` of a number of at most as many digits as the first number says.
unfoldable pub decimal_from : ℕ → ℕ → String
decimal_from zero n = ""
decimal_from (suc fuel) n =
    let rest = decimal_from fuel (n / 10) in
    let last = digit_text (n % 10) in if ltb n 10 then last else rest ++ last

unfoldable pub decimal : ℕ → String
unfolding decimal_from
decimal n = decimal_from 20 n

-- The whole seconds of a window, rounded up, as the text that a client is told; the sum is of 64 bits.
unfoldable pub window_seconds : ℕ → String
unfolding int64 decimal
window_seconds w = elim (int64 (w + 999999999)) [
  | pos n ↦ decimal (n / 1000000000)
  | negsuc n ↦ if suc n / 1000000000 == 0 then "0" else "-" ++ decimal (suc n / 1000000000)
]
