-- ===== src/Budget.antt =====
-- The memory budget of internal/server/sem.go. A request that waits is in the list of waiters; each
-- step is one critical section, and the scheduler's choice of steps is a sequence of them.
pub mod Steps
use onegw.Prelude.{
  ℕ, zero, suc, ◌+◌, ◌-◌, max, min, ◌≤◌, ◌≡◌, Bool, true, false, Option, none, some, List, [], ◌∷◌,
  ◌++◌, ltb, leb, ◌==◌, if◌then◌else◌,
}

pub record ByteBudget : Type 0 where
  pub held : ℕ
  pub capacity : ℕ
  pub waiting : ℕ
  pub exhausted : ℕ

unfoldable pub new_byte_budget : ℕ → ByteBudget
new_byte_budget cap_bytes = record {
  held = 0;
  capacity = max 1024 cap_bytes;
  waiting = 0;
  exhausted = 0;
}

-- What a request takes: at most the whole budget.
unfoldable pub clamp : ByteBudget → ℕ → ℕ
clamp b n = min n b.capacity

-- One attempt of `Acquire`, the first or one of a tick, of the clamped number of bytes.
unfoldable pub attempt : ByteBudget → ℕ → ByteBudget × Bool
attempt b n =
    if leb n (b.capacity - b.held) then (record b { held = b.held + n }, true) else (b, false)

unfoldable pub release : ByteBudget → ℕ → ByteBudget
release b n = record b { held = b.held - n }

-- The state of the server: the budget, what the requests that were admitted took, and what those that
-- wait ask for.
pub record Served : Type 0 where
  pub budget : ByteBudget
  pub taken : List ℕ
  pub asked : List ℕ

-- A list less the element at a place.
unfoldable pub pull : ℕ → List ℕ → Option (ℕ × List ℕ)
pull i [] = none
pull zero (x ∷ xs) = some (x, xs)
pull (suc i) (x ∷ xs) = elim (pull i xs) [ none ↦ none | some (y, rest) ↦ some (y, x ∷ rest) ]

pub data Event : Type 0 where
  -- a request begins `Acquire`
  begin : ℕ → Event
  -- a waiter's tick
  tick : ℕ → Event
  -- a waiter's context is done
  give_up : ℕ → Event
  -- an admitted request releases what it took
  finish : ℕ → Event

-- The part of `Acquire` before the loop: it is admitted, or it waits.
unfoldable pub arrive : Served → ℕ → Served
unfolding attempt clamp
arrive s n =
    let b : ByteBudget = record s.budget { waiting = suc s.budget.waiting } in
    let k = clamp b n in
    let (b', granted) = attempt b k in
    if granted
    then record {
      budget = record b' { waiting = s.budget.waiting };
      taken = k ∷ s.taken;
      asked = s.asked;
    }
    else record s { budget = b'; asked = k ∷ s.asked }

unfoldable pub tick_of : Served → ℕ → Served
unfolding attempt
tick_of s i = elim (pull i s.asked) [
  | none ↦ s
  | some (k, rest) ↦
      let (b', granted) = attempt s.budget k in
      if granted
      then record {
        budget = record b' { waiting = b'.waiting - 1 };
        taken = k ∷ s.taken;
        asked = rest;
      }
      else s
]

unfoldable pub gave_up : Served → ℕ → Served
gave_up s i = elim (pull i s.asked) [
  | none ↦ s
  | some (k, rest) ↦ record s {
    budget = record s.budget { waiting = s.budget.waiting - 1; exhausted = suc s.budget.exhausted };
    asked = rest;
  }
]

unfoldable pub finished : Served → ℕ → Served
unfolding release
finished s i = elim (pull i s.taken) [
  | none ↦ s
  | some (k, rest) ↦ record s { budget = release s.budget k; taken = rest }
]

unfoldable pub step : Served → Event → Served
unfolding arrive tick_of gave_up finished
step s (begin n) = arrive s n
step s (tick i) = tick_of s i
step s (give_up i) = gave_up s i
step s (finish i) = finished s i

unfoldable pub run : Served → List Event → Served
unfolding step
run s [] = s
run s (e ∷ es) = run (step s e) es

unfoldable pub start : ℕ → Served
start cap_bytes = record { budget = new_byte_budget cap_bytes; taken = []; asked = [] }
