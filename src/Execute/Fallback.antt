-- ===== src/Execute/Fallback.antt =====
-- Which target `Execute` of router.go answers from.
use onegw.Prelude.{ℕ, suc, ◌+◌, ◌≡◌, refl, true, false, Option, none, some, List, [], ◌∷◌, arith}
use onegw.Execute.{
  ApiError, Outcome, served, fell, returned, client_closed, unfinished, Leg, attempts, TargetState,
  skipped, benched_model, live, parked, success, failure, after_leg, execute,
}

-- How many targets stand before the first that is not skipped.
unfoldable pub leading_skipped : List TargetState → ℕ
leading_skipped [] = 0
leading_skipped (skipped e ∷ targets) = suc (leading_skipped targets)
leading_skipped (benched_model e ∷ targets) = 0
leading_skipped (live l replies ∷ targets) = 0
leading_skipped (parked gone l replies ∷ targets) = 0

execute-tried :
    (place : ℕ) (last : Option ApiError) (seed : ApiError) (targets : List TargetState)
    → execute true false true place last seed targets ≡ failure last
unfolding execute
execute-tried place last seed [] = refl
execute-tried place last seed (skipped e ∷ targets) = refl
execute-tried place last seed (benched_model e ∷ targets) = refl
execute-tried place last seed (live l replies ∷ targets) = refl
execute-tried place last seed (parked gone l replies ∷ targets) = refl

after_leg-success :
    (l : Leg) (place i : ℕ) (seed : ApiError) (targets : List TargetState) (o : Outcome)
    → after_leg true l place o (λ e. execute true false true (suc place) (some e) seed targets)
      ≡ success i
    → i ≡ place
unfolding after_leg
after_leg-success l place i seed targets served h = ground (arith, h)
after_leg-success l place i seed targets (fell e refused) h =
    absurd (ground (arith, h, execute-tried (suc place) (some e) seed targets))
after_leg-success l place i seed targets (returned e) h = absurd (ground (arith, h))
after_leg-success l place i seed targets client_closed h = absurd (ground (arith, h))
after_leg-success l place i seed targets unfinished h = absurd (ground (arith, h))

success_from :
    (place i : ℕ) (last : Option ApiError) (seed : ApiError) (targets : List TargetState)
    → execute true false false place last seed targets ≡ success i
    → i ≡ place + leading_skipped targets
unfolding execute leading_skipped
success_from place i last seed [] h = absurd (ground (arith, h))
success_from place i last seed (skipped e ∷ targets) h =
    omega (arith, success_from (suc place) i (some e) seed targets h)
success_from place i last seed (benched_model e ∷ targets) h = absurd (ground (arith, h))
success_from place i last seed (live l replies ∷ targets) h =
    omega (arith, after_leg-success l place i seed targets (attempts l 0 0 seed replies) h)
success_from place i last seed (parked true l replies ∷ targets) h = absurd (ground (arith, h))
success_from place i last seed (parked false l replies ∷ targets) h =
    omega (arith, after_leg-success l place i seed targets (attempts l 0 0 seed replies) h)

-- With the fallback of combos off, only the first target that is not skipped as unknown or disabled can
-- answer a combo: no other model is substituted for it.
pub execute-first :
    (i : ℕ) (seed : ApiError) (targets : List TargetState)
    → execute true false false 0 none seed targets ≡ success i
    → i ≡ leading_skipped targets
execute-first i seed targets h = omega (arith, success_from 0 i none seed targets h)
