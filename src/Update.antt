-- ===== src/Update.antt =====
-- internal/update/update.go: the semantic versions that an update compares. An int that is -1, 0 or 1 is
-- a `Sign`.
pub mod Signs
pub mod Prereleases
pub mod Order
use Prim.Native.Char.{Char, code}
use Prim.Native.String.{String}
use onegw.Prelude.{
  ℕ, zero, suc, ◌+◌, ◌-◌, ◌*◌, ◌^◌, ◌<◌, Bool, true, false, not, ◌&&◌, ◌||◌, Option, none, some,
  ◌>>=◌, List, [], ◌∷◌, map, str_eq, ltb, leb, ◌==◌, if◌then◌else◌, length,
}
use onegw.Prelude.Int.{ℤ, pos, negsuc, ltb_ℤ}

pub data Sign : Type 0 where
  less : Sign
  same : Sign
  more : Sign

pub record Semver : Type 0 where
  pub major : ℤ
  pub minor : ℤ
  pub patch : ℤ
  pub pre : String

-- `if c := ...; c != 0 { return c }`
abbrev pub or_next : Sign → Sign → Sign
or_next less next = less
or_next same next = next
or_next more next = more

-- `cmp3` of two ints.
abbrev pub cmp3 : ℤ → ℤ → Sign
cmp3 a b = if ltb_ℤ a b then less else if ltb_ℤ b a then more else same

-- strings.Compare: the order of UTF-8 is that of the characters' codes.
unfoldable pub compare_strings : String → String → Sign
compare_strings String.[] String.[] = same
compare_strings String.[] (String.◌∷◌ d t) = less
compare_strings (String.◌∷◌ c s) String.[] = more
compare_strings (String.◌∷◌ c s) (String.◌∷◌ d t) =
    or_next (cmp3 (pos (code c)) (pos (code d))) (compare_strings s t)

abbrev pub in_range : Char → ℕ → ℕ → Bool
in_range c low high = leb low (code c) && leb (code c) high

-- strconv.Atoi: a sign or none, at least one digit, and a value of 64 bits.
unfoldable pub digits : ℕ → String → Option ℕ
digits n String.[] = some n
digits n (String.◌∷◌ c s) =
    let rest = digits (n * 10 + (code c - b'0')) s in if in_range c b'0' b'9' then rest else none

unfoldable pub magnitude : String → Option ℕ
unfolding digits
magnitude String.[] = none
magnitude (String.◌∷◌ c s) = digits 0 (String.◌∷◌ c s)

unfoldable pub negated : ℕ → ℤ
negated zero = pos 0
negated (suc n) = negsuc n

unfoldable pub atoi : String → Option ℤ
unfolding magnitude negated
atoi String.[] = none
atoi (String.◌∷◌ c s) =
    if code c == b'-'
    then (elim (magnitude s) [
      | none ↦ none
      | some n ↦ if leb n (2 ^ 63) then some (negated n) else none
    ])
    else elim (magnitude (if code c == b'+' then s else String.◌∷◌ c s)) [
      | none ↦ none
      | some n ↦ if ltb n (2 ^ 63) then some (pos n) else none
    ]

-- strings.Split at ".": at least one part.
unfoldable pub split_dots : String → List String
split_dots String.[] = String.[] ∷ []
split_dots (String.◌∷◌ c s) =
    let rest = split_dots s in
    if code c == b'.'
    then String.[] ∷ rest
    else elim rest [ [] ↦ String.◌∷◌ c String.[] ∷ [] | part ∷ parts ↦ String.◌∷◌ c part ∷ parts ]

-- strings.Cut at "-", whose second part is empty where there is none.
unfoldable pub cut_dash : String → String × String
cut_dash String.[] = (String.[], String.[])
cut_dash (String.◌∷◌ c s) =
    let (before, after) = cut_dash s in
    if code c == b'-' then (String.[], s) else (String.◌∷◌ c before, after)

-- unicode.IsSpace
unfoldable pub is_space : Char → Bool
is_space c =
    in_range c 9 13
    || (code c == 32)
    || (code c == 133)
    || (code c == 160)
    || (code c == 5760)
    || in_range c 8192 8202
    || in_range c 8232 8233
    || (code c == 8239)
    || (code c == 8287)
    || (code c == 12288)

-- strings.TrimSpace
unfoldable pub trim_left : String → String
unfolding is_space
trim_left String.[] = String.[]
trim_left (String.◌∷◌ c s) = let rest = trim_left s in if is_space c then rest else String.◌∷◌ c s

unfoldable pub trim_right : String → String
unfolding is_space
trim_right String.[] = String.[]
trim_right (String.◌∷◌ c s) =
    let rest = trim_right s in if is_space c && str_eq rest "" then String.[] else String.◌∷◌ c rest

-- strings.TrimPrefix of "v".
unfoldable pub trim_v : String → String
trim_v String.[] = String.[]
trim_v (String.◌∷◌ c s) = if code c == b'v' then s else String.◌∷◌ c s

unfoldable pub all_pre : String → Bool
all_pre String.[] = true
all_pre (String.◌∷◌ r s) =
    let rest = all_pre s in
    if not
      (in_range r b'0' b'9' || in_range r b'a' b'z' || in_range r b'A' b'Z' || (code r == b'-'))
    then false
    else rest

unfoldable pub all_parts : List String → Bool
unfolding all_pre
all_parts [] = true
all_parts (part ∷ parts) =
    let rest = all_parts parts in
    if str_eq part "" then false else if not (all_pre part) then false else rest

unfoldable pub valid_pre : String → Bool
unfolding all_parts split_dots
valid_pre pre = all_parts (split_dots pre)

abbrev pub size : String → ℕ
size String.[] = 0
size (String.◌∷◌ c s) = suc (size s)

-- A number of a version. The length of a text that Atoi reads is that of its characters.
unfoldable pub number : String → Option ℤ
unfolding atoi
number p =
    if str_eq p "" || ltb 9 (size p)
    then none
    else elim (atoi p) [ none ↦ none | some n ↦ if ltb_ℤ n (pos 0) then none else some n ]

unfoldable pub numbers : List String → String → Option Semver
unfolding number
numbers (a ∷ b ∷ c ∷ []) pre = do
  x ← number a
  y ← number b
  z ← number c
  some (record { major = x; minor = y; patch = z; pre = pre })
numbers parts pre = none

unfoldable pub parse_semver : String → Option Semver
unfolding numbers cut_dash trim_v trim_left trim_right valid_pre split_dots
parse_semver s =
    let (rest, pre) = cut_dash (trim_v (trim_right (trim_left s))) in
    if not (str_eq pre "") && not (valid_pre pre) then none else numbers (split_dots rest) pre

-- Two identifiers, which the loop of `comparePre` compares.
unfoldable pub compare_idents : Option ℤ → Option ℤ → String → String → Sign
unfolding compare_strings
compare_idents (some xn) (some yn) x y = cmp3 xn yn
compare_idents (some xn) none x y = less
compare_idents none (some yn) x y = more
compare_idents none none x y = compare_strings x y

-- The loop: the sign of the first identifiers that differ.
unfoldable pub compare_parts : List String → List String → Sign
unfolding compare_idents atoi
compare_parts (x ∷ xs) (y ∷ ys) =
    or_next (compare_idents (atoi x) (atoi y) x y) (compare_parts xs ys)
compare_parts xs ys = same

unfoldable pub compare_pre : String → String → Sign
unfolding compare_parts split_dots
compare_pre a b =
    let xs = split_dots a in
    let ys = split_dots b in
    if str_eq a b
    then same
    else or_next (compare_parts xs ys) (cmp3 (pos (length xs)) (pos (length ys)))

unfoldable pub compare_semver : Semver → Semver → Sign
unfolding compare_pre
compare_semver v w = or_next (cmp3 v.major w.major) (
    or_next (cmp3 v.minor w.minor) (
      or_next (cmp3 v.patch w.patch) (
        if str_eq v.pre "" && not (str_eq w.pre "")
        then more
        else if not (str_eq v.pre "") && str_eq w.pre ""
        then less
        else compare_pre v.pre w.pre)))

unfoldable pub compare : String → String → Sign
unfolding compare_semver parse_semver compare_strings
compare a b = elim (parse_semver a) [
  | none ↦ elim (parse_semver b) [ none ↦ compare_strings a b | some w ↦ less ]
  | some v ↦ elim (parse_semver b) [ none ↦ more | some w ↦ compare_semver v w ]
]
