-- ===== src/Task.antt =====
-- internal/router/task.go: the difficulty of a request, the fit of a target, and the reordering of a
-- combo's targets; with the tiers of internal/provider/tier.go.
pub mod Levels
pub mod Score
pub mod Sort
pub mod Order
use onegw.Prelude.{
  ℕ, zero, suc, ◌+◌, ◌-◌, ◌*◌, ◌/◌, String, Bool, true, false, not, ◌||◌, ◌&&◌, Option, none, some,
  List, [], ◌∷◌, ◌++◌, map, length, str_eq, ltb, leb, ◌==◌, if◌then◌else◌,
}
use onegw.Prelude.Assoc.{lookup}
use onegw.Prelude.Int.{ℤ, pos, negsuc, sub_ℕ, ◌-ℤ◌, ltb_ℤ}
use onegw.Policy.{Target}

pub data TaskLevel : Type 0 where
  light standard heavy critical : TaskLevel

-- The difficulty rank, 1 to 4.
abbrev pub weight : TaskLevel → ℕ
weight light = 1
weight standard = 2
weight heavy = 3
weight critical = 4

abbrev pub task_target_power : TaskLevel → ℕ
task_target_power light = 35
task_target_power standard = 65
task_target_power heavy = 95
task_target_power critical = 120

abbrev pub undeclared_power : ℕ
undeclared_power = 65

pub record TaskSignals : Type 0 where
  pub prompt_chars : ℕ
  pub messages : ℕ
  pub tools : ℕ
  pub max_tokens : ℕ
  pub effort : String
  pub has_image : Bool
  pub light_kw : Bool
  pub heavy_kw : Bool
  pub critical_kw : Bool

pub record Task : Type 0 where
  pub signals : TaskSignals
  pub open signals use *
  pub level : TaskLevel
  pub reasons : List String

unfoldable pub one_of : String → List String → Bool
one_of s [] = false
one_of s (x ∷ xs) = str_eq s x || one_of s xs

unfoldable pub effort_is_high : String → Bool
effort_is_high e = one_of e ("high" ∷ "xhigh" ∷ "max" ∷ "maximum" ∷ "hard" ∷ "deep" ∷ [])

unfoldable pub effort_is_light : String → Bool
effort_is_light e = str_eq e "" || one_of e ("low" ∷ "minimal" ∷ "none" ∷ "off" ∷ "disabled" ∷ [])

-- The chain of `||` that decides `critical`: the first condition that holds gives the one reason.
unfoldable pub critical_reasons : TaskSignals → List String
critical_reasons s =
    if leb 100000 s.prompt_chars
    then "huge-context" ∷ []
    else if leb 32768 s.max_tokens
    then "huge-output" ∷ []
    else if leb 8 s.tools && leb 16000 s.prompt_chars
    then "many-tools-large-context" ∷ []
    else if s.critical_kw && (effort_is_high s.effort || leb 3 s.tools || leb 8000 s.prompt_chars)
    then "critical-domain" ∷ []
    else []

-- `add`: the reason is noted if its condition holds.
abbrev pub add_reason : Bool → String → List String → List String
add_reason cond reason rest = if cond then reason ∷ rest else rest

-- The signals of a heavy request, in the order of the tests; `heavySignals` is their number.
unfoldable pub heavy_reasons : TaskSignals → List String
heavy_reasons s = add_reason (leb 50000 s.prompt_chars) "large-context" (
    add_reason (leb 24000 s.prompt_chars) "medium-large-context" (
      add_reason (leb 16 s.messages) "long-conversation" (
        add_reason (leb 4 s.tools) "many-tools" (
          add_reason (leb 8192 s.max_tokens) "large-output" (
            add_reason (effort_is_high s.effort) "high-reasoning-effort" (
              add_reason s.critical_kw "security-sensitive"
                (add_reason (s.heavy_kw && leb 4000 s.prompt_chars) "complex-task" [])))))))

unfoldable pub is_heavy : TaskSignals → Bool
is_heavy s = leb 2 (length (heavy_reasons s)) || leb 50000 s.prompt_chars || effort_is_high s.effort

unfoldable pub is_light : TaskSignals → Bool
is_light s =
    (leb s.prompt_chars 2000
      && leb s.messages 3
      && s.tools == 0
      && leb s.max_tokens 1500
      && effort_is_light s.effort
      && not s.critical_kw
      && not s.heavy_kw)
    || (s.light_kw
        && leb s.prompt_chars 4000
        && s.tools == 0
        && effort_is_light s.effort
        && not s.critical_kw)

-- The reasons, or one for want of any.
abbrev pub or_default : String → List String → List String
or_default d [] = d ∷ []
or_default d (r ∷ rs) = r ∷ rs

abbrev pub task : TaskSignals → TaskLevel → List String → Task
task s l rs = record { signals = s; level = l; reasons = rs }

unfoldable pub classify : TaskSignals → Task
classify s = elim (critical_reasons s) [
  | r ∷ rs ↦ task s critical (r ∷ rs)
  | [] ↦
      if is_heavy s
      then task s heavy (heavy_reasons s)
      else if is_light s
      then task s light (or_default "small-simple-request" (heavy_reasons s))
      else task s standard (or_default "default" (heavy_reasons s))
]

-- internal/provider/tier.go: the declared capability of a model.
pub record ModelTier : Type 0 where
  pub model : String
  pub power : ℕ
  pub vision : Bool
  pub reasoning : Bool
  pub context : ℕ
  pub max_out : ℕ

-- The first tier whose name passes a test.
unfoldable pub first_tier : (String → Bool) → List ModelTier → Option ModelTier
first_tier test [] = none
first_tier test (t ∷ ts) = if test t.model then some t else first_tier test ts

-- `Tier`: an exact name first, then a glob. `glob pattern model` is `path.Match`, where a malformed
-- pattern matches nothing.
unfoldable pub tier : (String → String → Bool) → List ModelTier → String → Option ModelTier
unfolding first_tier
tier glob tiers model = elim (first_tier (λ m. str_eq m model) tiers) [
  | some t ↦ some t
  | none ↦ first_tier (λ m. glob m model) tiers
]

pub record TierMeta : Type 0 where
  pub power : ℕ
  pub vision : Bool
  pub reasoning : Bool
  pub context : ℕ
  pub max_out : ℕ
  pub declared : Bool

abbrev pub neutral : TierMeta
neutral = record {
  power = undeclared_power;
  vision = false;
  reasoning = false;
  context = 0;
  max_out = 0;
  declared = false;
}

abbrev pub declared_meta : ModelTier → TierMeta
declared_meta t = record {
  power = t.power;
  vision = t.vision;
  reasoning = t.reasoning;
  context = t.context;
  max_out = t.max_out;
  declared = true;
}

-- The pool, as the tiers of each provider by its name.
abbrev pub Pool : Type 0
Pool = List (String × List ModelTier)

unfoldable pub tier_for : (String → String → Bool) → Pool → Target → TierMeta
tier_for glob pool t = elim (lookup t.provider pool) [
  | none ↦ neutral
  | some tiers ↦ elim (tier glob tiers t.model) [ none ↦ neutral | some m ↦ declared_meta m ]
]

-- What `scoreTarget` takes off for the capabilities that a declared target lacks.
unfoldable pub hard_misses : TierMeta → Task → ℕ
hard_misses m t =
    if m.declared
    then (if t.has_image && not m.vision then 10000 else 0)
      + (if leb (weight heavy) (weight t.level) && not m.reasoning then 120 else 0)
      + (if ltb 0 m.context && ltb (m.context * 85 / 100) (t.prompt_chars / 4) then 200 else 0)
      + (if ltb 0 m.max_out && ltb 0 t.max_tokens && ltb m.max_out t.max_tokens then 80 else 0)
    else 0

-- What it takes off for a power that is too great or too small for the level.
unfoldable pub refinement : ℕ → TaskLevel → ℕ
refinement power light = if ltb 95 power then 35 else 0
refinement power standard = if ltb 125 power then 10 else 0
refinement power heavy = if ltb power 65 then 60 else 0
refinement power critical = if ltb power 85 then 100 else 0

-- |a - b|
abbrev pub distance : ℕ → ℕ → ℕ
distance a b = (a - b) + (b - a)

unfoldable pub score_target : TierMeta → Task → ℤ
unfolding hard_misses refinement
score_target m t =
    pos 100
    -ℤ pos (distance m.power (task_target_power t.level))
    -ℤ pos (hard_misses m t)
    -ℤ pos (refinement m.power t.level)

pub record Scored : Type 0 where
  pub target : Target
  pub score : ℤ

-- sort.SliceStable by falling scores, as an insertion sort: a target passes those of greater or
-- equal score that stood before it.
unfoldable pub insert_scored : Scored → List Scored → List Scored
insert_scored x [] = x ∷ []
insert_scored x (y ∷ ys) = if ltb_ℤ x.score y.score then y ∷ insert_scored x ys else x ∷ y ∷ ys

unfoldable pub sort_scored : List Scored → List Scored
unfolding insert_scored
sort_scored [] = []
sort_scored (x ∷ xs) = insert_scored x (sort_scored xs)

unfoldable pub reorder_by_task : (Target → TierMeta) → Task → List Target → List Target
reorder_by_task meta t targets =
    map (λ x. x.target)
      (sort_scored (map (λ a. record { target = a; score = score_target (meta a) t }) targets))

-- `applyTaskRouting`: whether routing is on, whether the route is a combo, and the signals that the
-- server tagged.
unfoldable pub apply_task_routing :
    (Target → TierMeta) → Bool → Bool → Option TaskSignals → List Target → List Target
apply_task_routing meta on is_combo sig targets =
    if not on || not is_combo || leb (length targets) 1
    then targets
    else (elim sig [ none ↦ targets | some s ↦ reorder_by_task meta (classify s) targets ])
