-- ===== src/Tests/Routing.antt =====
-- A chat with an image, over a combo of three targets.
use onegw.Prelude.{
  ℕ, ◌≤◌, ◌≡◌, refl, true, false, not, none, some, List, [], ◌∷◌, arith, str_eq, get_elem?,
}
use onegw.Prelude.Int.{pos}
use onegw.Policy.{Target}
use onegw.Task.{TaskSignals, Task, TierMeta, Scored, weight, classify, task, heavy, reorder_by_task}
use onegw.Task.Levels.{classify_mono}
use onegw.Task.Order.{SeeingFirst, reorder-SeeingFirst}
use onegw.Router.RoundRobin.{ComboRr, lead, rotate, same_target, index_of, record_success}
use onegw.Router.RoundRobin.Sticky.{NextLead, record_success-next}

abbrev small : TaskSignals
small = record {
  prompt_chars = 100;
  messages = 1;
  tools = 0;
  max_tokens = 0;
  effort = "";
  has_image = false;
  light_kw = false;
  heavy_kw = false;
  critical_kw = false;
}

abbrev large : TaskSignals
large = record small { prompt_chars = 60000; messages = 20; tools = 5; has_image = true }

classify_mono_example : weight (classify small).level ≤ weight (classify large).level
classify_mono_example = classify_mono small large (record {
  chars = omega arith;
  turns = omega arith;
  offered = omega arith;
  output = omega arith;
  same_effort = refl;
  same_light = refl;
  more_heavy = λ h. cc;
  more_critical = λ h. cc;
})

abbrev blind_leg : Target
blind_leg = record { provider = "a"; model = "text" }

abbrev seeing_leg : Target
seeing_leg = record { provider = "b"; model = "eyes" }

abbrev unknown_leg : Target
unknown_leg = record { provider = "c"; model = "any" }

abbrev legs : List Target
legs = blind_leg ∷ unknown_leg ∷ seeing_leg ∷ []

abbrev meta : Target → TierMeta
meta t = record {
  power = 95;
  vision = str_eq t.provider "b";
  reasoning = true;
  context = 0;
  max_out = 0;
  declared = not (str_eq t.provider "c");
}

abbrev image_task : Task
image_task = task large heavy []

reorder-SeeingFirst_example : SeeingFirst meta (reorder_by_task meta image_task legs)
reorder-SeeingFirst_example =
    reorder-SeeingFirst meta image_task refl legs (omega arith, (omega arith, (omega arith, tt)))

abbrev equal_scores : List Scored
equal_scores =
    record { target = blind_leg; score = pos 3 }
    ∷ record { target = seeing_leg; score = pos 3 }
    ∷ []

-- The second leg serves as a fallback of the leader, which is the third.
abbrev third_leads : ComboRr
third_leads = record { counter = 2; winner = none; run = 0 }

record_success-next_example :
    let (l, rotated) = rotate third_leads 3 legs in
    (place : ℕ) × (t : Target) × (get_elem? legs place ≡ some t)
    × (same_target t unknown_leg ≡ true)
    × NextLead (record_success third_leads 3 l rotated unknown_leg) 3 3 place
record_success-next_example =
    record_success-next third_leads 3 2 legs unknown_leg (omega arith)
      (unfold rotate index_of lead in refl)
