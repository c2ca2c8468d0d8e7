-- ===== src/Task/Levels.antt =====
-- The levels of task.go: a larger request is never classified lower.
use onegw.Prelude.{
  ℕ, ◌≤◌, ◌≡◌, refl, String, Bool, true, false, ◌&&◌, List, [], ◌∷◌, length, arith, leb,
}
use onegw.Task.{
  TaskSignals, weight, effort_is_high, critical_reasons, heavy_reasons, is_heavy, is_light,
  classify, add_reason, or_default,
}

-- The second request is at least as large in every count, shows every sign of a hard task that the
-- first shows, and asks for the same effort.
pub record NoSmaller (s s' : TaskSignals) : Type 0 where
  pub chars : s.prompt_chars ≤ s'.prompt_chars
  pub turns : s.messages ≤ s'.messages
  pub offered : s.tools ≤ s'.tools
  pub output : s.max_tokens ≤ s'.max_tokens
  pub same_effort : s.effort ≡ s'.effort
  pub same_light : s.light_kw ≡ s'.light_kw
  pub more_heavy : s.heavy_kw ≡ true → s'.heavy_kw ≡ true
  pub more_critical : s.critical_kw ≡ true → s'.critical_kw ≡ true

add_mono :
    (c c' : Bool) (r : String) (rest rest' : List String)
    → (c ≡ true → c' ≡ true)
    → length rest ≤ length rest'
    → length (add_reason c r rest) ≤ length (add_reason c' r rest')
add_mono true c' r rest rest' h k = rw (h refl) (omega arith)
add_mono false c' r rest rest' h k = ground arith

leb_mono : (n a b : ℕ) → a ≤ b → leb n a ≡ true → leb n b ≡ true
leb_mono n a b h k = ground arith

module _ (s s' : TaskSignals) (g : NoSmaller s s') where
  same_high : effort_is_high s.effort ≡ true → effort_is_high s'.effort ≡ true
  same_high h = rw (← g.same_effort) h

  critical_mono : critical_reasons s' ≡ [] → critical_reasons s ≡ []
  unfolding critical_reasons
  critical_mono h = ground (arith, same_high)

  heavy_kw_mono :
      (s.heavy_kw && leb 4000 s.prompt_chars) ≡ true
      → (s'.heavy_kw && leb 4000 s'.prompt_chars) ≡ true
  heavy_kw_mono h = ground arith

  reasons_mono : length (heavy_reasons s) ≤ length (heavy_reasons s')
  unfolding heavy_reasons
  reasons_mono = add_mono _ _ _ _ _ (leb_mono 50000 _ _ g.chars) (
      add_mono _ _ _ _ _ (leb_mono 24000 _ _ g.chars) (
        add_mono _ _ _ _ _ (leb_mono 16 _ _ g.turns) (
          add_mono _ _ _ _ _ (leb_mono 4 _ _ g.offered) (
            add_mono _ _ _ _ _ (leb_mono 8192 _ _ g.output) (
              add_mono _ _ _ _ _ same_high (
                add_mono _ _ _ _ _ g.more_critical
                  (add_mono _ _ _ [] [] heavy_kw_mono (omega arith))))))))

  heavy_mono : is_heavy s ≡ true → is_heavy s' ≡ true
  unfolding is_heavy
  heavy_mono h = ground (arith, reasons_mono, same_high)

  light_mono : is_light s' ≡ true → is_light s ≡ true
  unfolding is_light
  light_mono h = rw (g.same_effort, g.same_light) (ground arith)

  -- A request that is no smaller than another in any count, shows each sign of a hard task the other
  -- shows, and asks for the same effort and the same light words, is not classified lower.
  pub classify_mono : weight (classify s).level ≤ weight (classify s').level
  unfolding classify
  classify_mono = ground (arith, critical_mono, heavy_mono, light_mono)

-- A request with a high reasoning effort is heavy or critical.
pub classify-high_effort :
    (s : TaskSignals) → effort_is_high s.effort ≡ true → 3 ≤ weight (classify s).level
unfolding classify is_heavy
classify-high_effort s h = ground arith

heavy-reasons : (s : TaskSignals) → is_heavy s ≡ true → 1 ≤ length (heavy_reasons s)
unfolding is_heavy heavy_reasons
heavy-reasons s h = ground arith

default-reasons : (d : String) (rs : List String) → 1 ≤ length (or_default d rs)
default-reasons d [] = omega arith
default-reasons d (r ∷ rs) = omega arith

-- Every request is classified with a reason.
pub classify-reasons : (s : TaskSignals) → 1 ≤ length (classify s).reasons
unfolding classify
classify-reasons s = ground (
  arith,
  heavy-reasons s,
  default-reasons "small-simple-request" (heavy_reasons s),
  default-reasons "default" (heavy_reasons s),
)
