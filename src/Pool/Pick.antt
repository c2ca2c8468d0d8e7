-- ===== src/Pool/Pick.antt =====
-- How provider.go chooses among the open slots (`pickSlot`): a least busy one, by the strategy of
-- the pool. What is drawn at random, and the comparison of the scores of "p2c", which are floats,
-- are arguments.
use onegw.Prelude.{
  ℕ, suc, ◌-◌, min, Bool, true, false, Option, none, some, List, [], ◌∷◌, length, get_elem?, drop,
  str_eq, ltb, leb, ◌==◌, if◌then◌else◌,
}
use onegw.Pool.{AccountState, AccountPool}

-- `pick_n` and `pick_again` draw a number below their argument, `shuffled` are the two decks that
-- may be dealt, and `lower` says that the score of a slot is below that of another.
pub record Draws : Type 0 where
  pub pick_n : ℕ → ℕ
  pub pick_again : ℕ → ℕ
  pub shuffled : List ℕ × List ℕ
  pub lower : AccountPool → ℕ → ℕ → ℕ → Bool

-- What a slot has in a field, 0 out of range.
unfoldable pub at_slot : (AccountState → ℕ) → AccountPool → ℕ → ℕ
at_slot field p i = elim (get_elem? p.accts i) [ none ↦ 0 | some s ↦ field s ]

unfoldable pub min_live : AccountPool → ℕ → List ℕ → ℕ
min_live p m [] = m
min_live p m (i ∷ opened) = min_live p (min m (at_slot (λ s. s.live) p i)) opened

-- The slots with a number of calls.
unfoldable pub with_live : AccountPool → ℕ → List ℕ → List ℕ
with_live p m [] = []
with_live p m (i ∷ opened) =
    let rest = with_live p m opened in if at_slot (λ s. s.live) p i == m then i ∷ rest else rest

unfoldable pub least_used : AccountPool → ℕ → List ℕ → ℕ
least_used p best [] = best
least_used p best (i ∷ opened) =
    let a = at_slot (λ s. s.last_used) p i in
    let b = at_slot (λ s. s.last_used) p best in
    let later = least_used p i opened in
    let on = least_used p best opened in
    if a == 0 then i else if b == 0 then on else if ltb a b then later else on

unfoldable pub fastest : AccountPool → ℕ → List ℕ → ℕ
fastest p best [] = best
fastest p best (i ∷ opened) =
    let later = fastest p i opened in
    let on = fastest p best opened in
    if ltb (at_slot (λ s. s.speed) p best) (at_slot (λ s. s.speed) p i) then later else on

abbrev pub elem : ℕ → List ℕ → Bool
elem i [] = false
elem i (o ∷ opened) = let rest = elem i opened in if o == i then true else rest

-- The first open slot of a deck, and the place after it.
unfoldable pub deal : List ℕ → ℕ → List ℕ → Option (ℕ × ℕ)
deal opened place [] = none
deal opened place (i ∷ deck) =
    let rest = deal opened (suc place) deck in if elem i opened then some (i, suc place) else rest

unfoldable pub deck_pick : AccountPool → Draws → ℕ → List ℕ → AccountPool × ℕ
deck_pick p w first opened = elim (deal opened p.deck_pos (drop p.deck_pos p.deck)) [
  | some (i, place) ↦ (record p { deck_pos = place }, i)
  | none ↦ elim (deal opened 0 w.shuffled.0) [
    | some (i, place) ↦ (record p { deck = w.shuffled.0; deck_pos = place }, i)
    | none ↦ (record p { deck = w.shuffled.1; deck_pos = 0 }, first)
  ]
]

-- An element of a list, or a default out of range.
abbrev pub at : ℕ → List ℕ → ℕ → ℕ
at d xs i = elim (get_elem? xs i) [ none ↦ d | some x ↦ x ]

unfoldable pub cheaper : AccountPool → Draws → ℕ → ℕ → ℕ → ℕ
cheaper p w now a b = if w.lower p now b a then b else a

-- The strategy among at least two slots, given as the first and the others.
unfoldable pub by_strategy : AccountPool → Draws → ℕ → ℕ → List ℕ → AccountPool × ℕ
by_strategy p w now first others =
    let opened = first ∷ others in
    let n = length opened in
    let i = w.pick_n n in
    let j = w.pick_again (n - 1) in
    if str_eq p.selection "least-used"
    then (p, least_used p first others)
    else if str_eq p.selection "random"
    then (p, at first opened i)
    else if str_eq p.selection "strict-random"
    then deck_pick p w first opened
    else if str_eq p.selection "p2c"
    then (if n == 2 then (p, cheaper p w now first (at first opened 1)) else (
      p,
      cheaper p w now (at first opened i) (at first opened (if leb i j then suc j else j)),
    ))
    else (p, fastest p first others)

-- One of the open slots, given as the first and the others.
unfoldable pub pick_slot : AccountPool → Draws → ℕ → ℕ → List ℕ → AccountPool × ℕ
pick_slot p w now first [] = (p, first)
pick_slot p w now first (second ∷ others) =
    let opened = first ∷ second ∷ others in
    elim (with_live p (min_live p (at_slot (λ s. s.live) p first) (second ∷ others)) opened) [
      | [] ↦ by_strategy p w now first (second ∷ others)
      | i ∷ [] ↦ (p, i)
      | i ∷ j ∷ rest ↦ by_strategy p w now i (j ∷ rest)
    ]
