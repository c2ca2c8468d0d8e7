-- ===== src/Task/Score.antt =====
-- The scores of task.go: a target that cannot see loses to every one that can, or may.
use onegw.Prelude.{ℕ, ◌≤◌, ◌≡◌, Bool, true, ◌&&◌, ◌||◌, arith, not, lt→ltb}
use onegw.Prelude.Int.{pos, ltb_ℤ, ◌≤ℤ◌, int_laws}
use onegw.Task.{
  TierMeta, Task, TaskLevel, light, standard, heavy, critical, task_target_power, hard_misses,
  refinement, score_target, distance,
}

-- A declared target that takes no images.
abbrev pub is_blind : TierMeta → Bool
is_blind m = m.declared && not m.vision

-- A target that takes images, or of which nothing is declared.
abbrev pub may_see : TierMeta → Bool
may_see m = not m.declared || m.vision

refinement-le : (p : ℕ) (l : TaskLevel) → refinement p l ≤ 100
unfolding refinement
refinement-le p light = ground arith
refinement-le p standard = ground arith
refinement-le p heavy = ground arith
refinement-le p critical = ground arith

distance-le : (p : ℕ) (l : TaskLevel) → p ≤ 150 → distance p (task_target_power l) ≤ 120
distance-le p light h = ground arith
distance-le p standard h = ground arith
distance-le p heavy h = ground arith
distance-le p critical h = ground arith

misses_blind :
    (m : TierMeta) (t : Task) → is_blind m ≡ true → t.has_image ≡ true → 10000 ≤ hard_misses m t
unfolding hard_misses
misses_blind m t b i = ground arith

misses_seeing : (m : TierMeta) (t : Task) → may_see m ≡ true → hard_misses m t ≤ 400
unfolding hard_misses
misses_seeing m t s = ground arith

score-le : (m : TierMeta) (t : Task) → score_target m t ≤ℤ pos 100
unfolding score_target
score-le m t = omega (int_laws)

-- With an image in the request, a declared target without vision scores below every target that
-- has vision or declares nothing, as long as that one's power is at most 150.
pub score_blind :
    (m n : TierMeta) (t : Task)
    → t.has_image ≡ true
    → is_blind m ≡ true
    → may_see n ≡ true
    → n.power ≤ 150
    → ltb_ℤ (score_target m t) (score_target n t) ≡ true
unfolding score_target
score_blind m n t i b s p = lt→ltb _ _ (
    omega (
      int_laws,
      misses_blind m t b i,
      misses_seeing n t s,
      refinement-le n.power t.level,
      distance-le n.power t.level p,
    ))
