-- ===== src/Errors/Texts.antt =====
-- What the methods of types.go look for in a text: `strings.Contains`, and the regular expressions
-- that ignore case. A rune matches another where the case folding takes both to one rune.
use Prim.Native.Char.{Char, code}
use Prim.Native.String.{String}
use text.Mathlib.Text.{find?}
use onegw.Prelude.{
  ℕ, zero, suc, Bool, true, false, not, ◌&&◌, ◌||◌, Option, none, some, List, [], ◌∷◌, ◌==◌,
  if◌then◌else◌,
}
use onegw.Prelude.Text.{Unicode}

abbrev pub contains : String → String → Bool
contains s t = elim (find? s t) [ none ↦ false | some i ↦ true ]

unfoldable pub any_in : String → List String → Bool
any_in s [] = false
any_in s (t ∷ ts) = let rest = any_in s ts in contains s t || rest

module _ (u : Unicode) where
  abbrev pub same_rune : Char → Char → Bool
  same_rune c d = code (u.fold c) == code (u.fold d)

  -- What follows a literal at the head of a text.
  unfoldable pub after : String → String → Option String
  after String.[] s = some s
  after (String.◌∷◌ c lit) String.[] = none
  after (String.◌∷◌ c lit) (String.◌∷◌ d s) =
      let rest = after lit s in if same_rune c d then rest else none

  abbrev pub begins : String → String → Bool
  unfolding after
  begins lit s = elim (after lit s) [ none ↦ false | some rest ↦ true ]

  -- Whether a test holds of what follows a literal, anywhere.
  unfoldable pub somewhere : String → (String → Bool) → String → Bool
  unfolding after
  somewhere lit good String.[] = elim (after lit String.[]) [ none ↦ false | some rest ↦ good rest ]
  somewhere lit good (String.◌∷◌ c s) =
      let later = somewhere lit good s in
      (elim (after lit (String.◌∷◌ c s)) [ none ↦ false | some rest ↦ good rest ]) || later

  abbrev pub holds : String → String → Bool
  unfolding somewhere
  holds lit s = somewhere lit (λ rest. true) s

  unfoldable pub any_rune : Char → String → Bool
  any_rune c String.[] = false
  any_rune c (String.◌∷◌ d s) = let rest = any_rune c s in same_rune c d || rest

  -- `\w`
  abbrev pub is_word : Char → Bool
  unfolding any_rune
  is_word c = any_rune c "abcdefghijklmnopqrstuvwxyz0123456789_"

  -- `\w+ limit`, of which the flag says whether a `\w` was read.
  unfoldable pub word_limit : Bool → String → Bool
  word_limit seen String.[] = false
  word_limit seen (String.◌∷◌ c s) =
      let rest = word_limit true s in
      (seen && begins " limit" (String.◌∷◌ c s)) || (is_word c && rest)

  -- `modelLimitRe`
  unfoldable pub model_limit : String → Bool
  unfolding somewhere word_limit
  model_limit s = somewhere "request rate exceeds the current model " (word_limit false) s

  -- `goModelBudgetRe`
  unfoldable pub go_model_budget_text : String → Bool
  go_model_budget_text s = holds "upstream request failed: rate limit exceeded" s

  -- A literal after at most so many runes, none of them the end of a line.
  unfoldable pub within : ℕ → String → String → Bool
  within n lit String.[] = begins lit String.[]
  within zero lit (String.◌∷◌ c s) = begins lit (String.◌∷◌ c s)
  within (suc n) lit (String.◌∷◌ c s) =
      let rest = within n lit s in begins lit (String.◌∷◌ c s) || (not (code c == 10) && rest)

  -- `reasoningEchoRe`
  unfoldable pub reasoning_echo : String → Bool
  unfolding somewhere within
  reasoning_echo s =
      somewhere "reasoning_content" (within 80 "must be passed back") s
      || somewhere "must be passed back" (within 80 "reasoning_content") s

  unfoldable pub any_held : List String → String → Bool
  any_held [] s = false
  any_held (t ∷ ts) s = let rest = any_held ts s in holds t s || rest

  -- `contextWindowRe`
  unfoldable pub context_window : String → Bool
  unfolding any_held
  context_window s =
      any_held
        ("context_length" ∷ "context_window" ∷ "context_limit" ∷ "context length" ∷ "context window"
          ∷ "context limit" ∷ "maximum context" ∷ "prompt is too long" ∷ "input is too long"
          ∷ "input token exceed" ∷ "input tokens exceed" ∷ "range of input length" ∷ [])
        s
