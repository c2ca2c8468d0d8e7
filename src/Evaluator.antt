-- ===== src/Evaluator.antt =====
-- The verdict of an evaluator in internal/router/router.go, and the order that it gives a combo's
-- targets. The evaluator's answer is an input, for the target that `callEval` asks.
pub mod Closest
use Prim.Native.Char.{Char, code}
use Prim.Native.String.{String}
use onegw.Prelude.{
  ℕ, zero, suc, ◌+◌, ◌-◌, Bool, true, false, not, ◌&&◌, ◌||◌, Option, none, some, List, [], ◌∷◌,
  get_elem?, str_eq, ltb, leb, ◌==◌, if◌then◌else◌,
}
use onegw.Prelude.Assoc.{Entries, lookup}
use onegw.Prelude.Text.{Unicode, to_lower}
use onegw.Policy.{Target}
use onegw.Task.{ModelTier, Pool, tier}

-- A verdict has a score, a choice or neither, which keeps the order; a score comes first.
pub record EvalResponse : Type 0 where
  pub score : Option ℕ
  pub choice : Option String
  pub noul : Bool

abbrev pub score_power : ℕ → ℕ
score_power level =
    if leb 4 level then 120 else if leb 3 level then 95 else if leb 2 level then 65 else 35

abbrev pub distance : ℕ → ℕ → ℕ
distance a b = (a - b) + (b - a)

-- The declared power of a target.
unfoldable pub power_at : (String → String → Bool) → Pool → Target → Option ℕ
power_at glob pool t = elim (lookup t.provider pool) [
  | none ↦ none
  | some tiers ↦ elim (tier glob tiers t.model) [ none ↦ none | some m ↦ some m.power ]
]

-- Whether a distance is less than the best so far; none is the greatest number.
abbrev pub closer : ℕ → Option ℕ → Bool
closer d none = true
closer d (some b) = ltb d b

-- The loop over the targets: the place of the next one, the best place and its distance.
unfoldable pub closest : (Target → Option ℕ) → ℕ → ℕ → ℕ → Option ℕ → List Target → ℕ × Option ℕ
closest power tp i best bd [] = (best, bd)
closest power tp i best bd (t ∷ ts) = elim (power t) [
  | none ↦ closest power tp (suc i) best bd ts
  | some p ↦
      if closer (distance p tp) bd
      then closest power tp (suc i) i (some (distance p tp)) ts
      else closest power tp (suc i) best bd ts
]

abbrev pub put {ℓ} : {A : Type ℓ} → List A → ℕ → A → List A
put [] i a = []
put (x ∷ xs) zero a = a ∷ xs
put (x ∷ xs) (suc i) a = x ∷ put xs i a

-- The exchange of the first target and another.
unfoldable pub swap_front {ℓ} : {A : Type ℓ} → ℕ → List A → List A
swap_front i [] = []
swap_front zero (x ∷ xs) = x ∷ xs
swap_front (suc i) (x ∷ xs) = elim (get_elem? xs i) [ none ↦ x ∷ xs | some y ↦ y ∷ put xs i x ]

abbrev pub is_space : Char → Bool
is_space c =
    (leb 9 (code c) && leb (code c) 13)
    || (code c == 0x20)
    || (code c == 0x85)
    || (code c == 0xA0)
    || (code c == 0x1680)
    || (leb 0x2000 (code c) && leb (code c) 0x200A)
    || (code c == 0x2028)
    || (code c == 0x2029)
    || (code c == 0x202F)
    || (code c == 0x205F)
    || (code c == 0x3000)

unfoldable pub trim_left : String → String
trim_left String.[] = String.[]
trim_left (String.◌∷◌ c s) = let rest = trim_left s in if is_space c then rest else String.◌∷◌ c s

unfoldable pub trim_right : String → String
trim_right String.[] = String.[]
trim_right (String.◌∷◌ c s) =
    let rest = trim_right s in if is_space c && str_eq rest "" then String.[] else String.◌∷◌ c rest

-- `strings.TrimSpace`
unfoldable pub trim_space : String → String
unfolding trim_left trim_right
trim_space s = trim_right (trim_left s)

-- The place of the first target that an option names.
unfoldable pub chosen : Unicode → String → List Target → Option ℕ
chosen u opt [] = none
chosen u opt (t ∷ ts) =
    let later = chosen u opt ts in
    if str_eq (to_lower u t.provider) opt || str_eq (to_lower u t.model) opt
    then some 0
    else (elim later [ none ↦ none | some i ↦ some (suc i) ])

unfoldable pub apply_verdict :
    Unicode → (Target → Option ℕ) → EvalResponse → List Target → List Target
unfolding closest swap_front chosen trim_space
apply_verdict u power v targets = elim v.score [
  | some level ↦ swap_front ((closest power (score_power level) 0 0 none targets).0) targets
  | none ↦ elim v.choice [
    | some opt ↦ elim (chosen u (to_lower u (trim_space opt)) targets) [
      | some i ↦ swap_front i targets
      | none ↦ targets
    ]
    | none ↦ targets
  ]
]

-- Whether a provider has an account without a key.
unfoldable pub any_keyless : List String → Bool
any_keyless [] = false
any_keyless (k ∷ ks) = let rest = any_keyless ks in str_eq k "" || rest

-- The target that `callEval` asks: the first whose provider has such an account.
unfoldable pub evaluator_leg : Entries (List String) → List Target → Option Target
unfolding any_keyless
evaluator_leg keys [] = none
evaluator_leg keys (t ∷ ts) =
    let later = evaluator_leg keys ts in
    elim (lookup t.provider keys) [
      | none ↦ later
      | some ks ↦ if any_keyless ks then some t else later
    ]

-- `applyEval` of a combo, by the number of its questions and what the evaluator answers.
unfoldable pub apply_eval :
    Unicode
    → (Target → Option ℕ)
    → Entries (List String)
    → (Target → Option EvalResponse)
    → Option ℕ
    → List Target
    → List Target
unfolding apply_verdict evaluator_leg
apply_eval u power keys ask questions targets = elim questions [
  | none ↦ targets
  | some n ↦ if n == 0 then targets else elim (evaluator_leg keys targets) [
    | none ↦ targets
    | some leg ↦ elim (ask leg) [ none ↦ targets | some v ↦ apply_verdict u power v targets ]
  ]
]
