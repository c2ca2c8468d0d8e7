-- ===== src/Pool/Chosen.antt =====
-- The strategies of provider.go choose one of the open slots, and a least busy one.
use onegw.Prelude.{
  ℕ, zero, suc, ◌⊎◌, ◌-◌, ◌≤◌, ◌≡◌, refl, true, some, List, [], ◌∷◌, arith, length, get_elem?, drop,
  if◌then◌else◌, leb, min, Bool-cases, Option-cases, inl, inr,
}
use onegw.Pool.{AccountPool}
use onegw.Pool.Pick.{
  Draws, at_slot, min_live, with_live, least_used, fastest, elem, deal, deck_pick, at, cheaper,
  by_strategy, pick_slot,
}

fastest-elem :
    (p : AccountPool) (best : ℕ) (xs : List ℕ) → elem (fastest p best xs) (best ∷ xs) ≡ true
unfolding fastest
fastest-elem p best [] = ground arith
fastest-elem p best (x ∷ xs) = ground (arith, fastest-elem p x xs, fastest-elem p best xs)

least_used-elem :
    (p : AccountPool) (best : ℕ) (xs : List ℕ) → elem (least_used p best xs) (best ∷ xs) ≡ true
unfolding least_used
least_used-elem p best [] = ground arith
least_used-elem p best (x ∷ xs) = ground (arith, least_used-elem p x xs, least_used-elem p best xs)

at-elem : (d : ℕ) (xs : List ℕ) (i : ℕ) → elem d xs ≡ true → elem (at d xs i) xs ≡ true
at-elem d xs i h = elim (Option-cases (get_elem? xs i)) [
  | inl e ↦ ground (arith, e, h)
  | inr (x, e) ↦ rw (at, e) (found xs i x e)
]
  where
    found : (ys : List ℕ) (k y : ℕ) → get_elem? ys k ≡ some y → elem y ys ≡ true
    found [] k y e = ground (arith, e)
    found (z ∷ ys) zero y e = ground (arith, e)
    found (z ∷ ys) (suc k) y e = ground (arith, found ys k y e)

deal-elem :
    (opened : List ℕ) (place : ℕ) (deck : List ℕ) (i k : ℕ)
    → deal opened place deck ≡ some (i, k)
    → elem i opened ≡ true
unfolding deal
deal-elem opened place [] i k h = ground (arith, h)
deal-elem opened place (j ∷ deck) i k h = elim (Bool-cases (elem j opened)) [
  | inl e ↦ let z : j ≡ i = ground (arith, e, h) in rw (← z) e
  | inr e ↦ deal-elem opened (suc place) deck i k (ground (arith, e, h))
]

deck_pick-elem :
    (p : AccountPool) (w : Draws) (first : ℕ) (opened : List ℕ)
    → elem first opened ≡ true
    → elem (deck_pick p w first opened).1 opened ≡ true
unfolding deck_pick
deck_pick-elem p w first opened h =
    elim (Option-cases (deal opened p.deck_pos (drop p.deck_pos p.deck))) [
      | inr ((i, k), e) ↦
          rw (deck_pick, e) (deal-elem opened p.deck_pos (drop p.deck_pos p.deck) i k e)
      | inl e ↦ elim (Option-cases (deal opened 0 w.shuffled.0)) [
        | inr ((i, k), f) ↦ rw (deck_pick, e, f) (deal-elem opened 0 w.shuffled.0 i k f)
        | inl f ↦ rw (deck_pick, e, f) h
      ]
    ]

cheaper-elem :
    (p : AccountPool) (w : Draws) (now a b : ℕ) (xs : List ℕ)
    → elem a xs ≡ true
    → elem b xs ≡ true
    → elem (cheaper p w now a b) xs ≡ true
unfolding cheaper
cheaper-elem p w now a b xs h k = ground (arith, h, k)

by_strategy-elem :
    (p : AccountPool) (w : Draws) (now first : ℕ) (others : List ℕ)
    → elem (by_strategy p w now first others).1 (first ∷ others) ≡ true
unfolding by_strategy
by_strategy-elem p w now first others =
    let opened : List ℕ = first ∷ others in
    let n = length opened in
    let i = w.pick_n n in
    let j = w.pick_again (n - 1) in
    let here : elem first opened ≡ true = ground arith in
    let inside : (k : ℕ) → elem (at first opened k) opened ≡ true =
      λ k. at-elem first opened k here in
    ground (
      arith,
      least_used-elem p first others,
      fastest-elem p first others,
      inside i,
      deck_pick-elem p w first opened here,
      cheaper-elem p w now first (at first opened 1) opened here (inside 1),
      cheaper-elem p w now (at first opened i) (at first opened (if leb i j then suc j else j))
          opened (inside i) (inside (if leb i j then suc j else j)),
    )

-- What a slot among the slots with a number of calls has.
with_live-elem :
    (p : AccountPool) (m : ℕ) (xs : List ℕ) (i : ℕ)
    → elem i (with_live p m xs) ≡ true
    → (elem i xs ≡ true) × (at_slot (λ s. s.live) p i ≡ m)
unfolding with_live
with_live-elem p m [] i h = ground (arith, h)
with_live-elem p m (x ∷ xs) i h = ground (arith, h, with_live-elem p m xs i)

min_live-le : (p : AccountPool) (m : ℕ) (xs : List ℕ) → min_live p m xs ≤ m
unfolding min_live
min_live-le p m [] = omega arith
min_live-le p m (x ∷ xs) = ground (arith, min_live-le p (min m (at_slot (λ s. s.live) p x)) xs)

min_live-lower :
    (p : AccountPool) (m : ℕ) (xs : List ℕ) (i : ℕ)
    → elem i xs ≡ true
    → min_live p m xs ≤ at_slot (λ s. s.live) p i
unfolding min_live
min_live-lower p m [] i h = ground (arith, h)
min_live-lower p m (x ∷ xs) i h =
    let m' = min m (at_slot (λ s. s.live) p x) in
    ground (arith, h, min_live-lower p m' xs i, min_live-le p m' xs)

-- The minimum is met, so the narrowed list is not empty.
with_live-some :
    (p : AccountPool) (m : ℕ) (xs : List ℕ) (i : ℕ)
    → elem i xs ≡ true
    → at_slot (λ s. s.live) p i ≡ m
    → elem i (with_live p m xs) ≡ true
unfolding with_live
with_live-some p m [] i h e = ground (arith, h)
with_live-some p m (x ∷ xs) i h e =
    ground (arith, h, e, λ (q : elem i xs ≡ true). with_live-some p m xs i q e)

min_live-met :
    (p : AccountPool) (m : ℕ) (xs : List ℕ)
    → (min_live p m xs ≡ m)
      ⊎ ((i : ℕ) × ((elem i xs ≡ true) × (at_slot (λ s. s.live) p i ≡ min_live p m xs)))
unfolding min_live
min_live-met p m [] = inl refl
min_live-met p m (x ∷ xs) = elim (min_live-met p (min m (at_slot (λ s. s.live) p x)) xs) [
  | inl e ↦ elim (Bool-cases (leb m (at_slot (λ s. s.live) p x))) [
    | inl c ↦ inl (ground (arith, c, e))
    | inr c ↦ inr (x, (ground arith, ground (arith, c, e)))
  ]
  | inr (i, (e, f)) ↦ inr (i, (ground (arith, e), f))
]

-- The slots from which the strategy chooses.
abbrev idle : AccountPool → ℕ → List ℕ → List ℕ
idle p first others =
    with_live p (min_live p (at_slot (λ s. s.live) p first) others) (first ∷ others)

idle-some :
    (p : AccountPool) (first : ℕ) (others : List ℕ)
    → (i : ℕ) × (elem i (idle p first others) ≡ true)
idle-some p first others =
    let m = min_live p (at_slot (λ s. s.live) p first) others in
    elim (min_live-met p (at_slot (λ s. s.live) p first) others) [
      | inl e ↦
          (first, with_live-some p m (first ∷ others) first (ground arith) (ground (arith, e)))
      | inr (i, (e, f)) ↦ (i, with_live-some p m (first ∷ others) i (ground (arith, e)) f)
    ]

picked :
    (p : AccountPool) (w : Draws) (now first second : ℕ) (others : List ℕ)
    → elem (pick_slot p w now first (second ∷ others)).1 (idle p first (second ∷ others)) ≡ true
unfolding pick_slot
picked p w now first second others = go (idle p first (second ∷ others)) refl
  where
    go :
        (xs : List ℕ)
        → idle p first (second ∷ others) ≡ xs
        → elem (pick_slot p w now first (second ∷ others)).1 (idle p first (second ∷ others)) ≡ true
    go [] e = let (i, k) = idle-some p first (second ∷ others) in absurd (ground (arith, e, k))
    go (i ∷ []) e = rw (pick_slot, e) (ground arith)
    go (i ∷ j ∷ rest) e = rw (pick_slot, e) (by_strategy-elem p w now i (j ∷ rest))

pub pick_slot-elem :
    (p : AccountPool) (w : Draws) (now first : ℕ) (others : List ℕ)
    → elem (pick_slot p w now first others).1 (first ∷ others) ≡ true
unfolding pick_slot
pick_slot-elem p w now first [] = ground arith
pick_slot-elem p w now first (second ∷ others) =
    let opened : List ℕ = first ∷ second ∷ others in
    (with_live-elem p (min_live p (at_slot (λ s. s.live) p first) (second ∷ others)) opened
      (pick_slot p w now first (second ∷ others)).1 (picked p w now first second others)).0

-- Every strategy chooses one of the open slots, and none that has more calls in flight than another
-- open slot.
pub pick_slot-least :
    (p : AccountPool) (w : Draws) (now first : ℕ) (others : List ℕ) (i : ℕ)
    → elem i (first ∷ others) ≡ true
    → (elem (pick_slot p w now first others).1 (first ∷ others) ≡ true)
      × (at_slot (λ s. s.live) p (pick_slot p w now first others).1 ≤ at_slot (λ s. s.live) p i)
unfolding pick_slot
pick_slot-least p w now first [] i h = ground (arith, h)
pick_slot-least p w now first (second ∷ others) i h =
    let l = at_slot (λ s. s.live) p first in
    let m = min_live p l (second ∷ others) in
    let c = (pick_slot p w now first (second ∷ others)).1 in
    let (inside, at_min) =
      with_live-elem p m (first ∷ second ∷ others) c (picked p w now first second others) in
    (
      inside,
      ground (
        arith,
        at_min,
        h,
        min_live-le p l (second ∷ others),
        λ (q : elem i (second ∷ others) ≡ true). min_live-lower p l (second ∷ others) i q,
      ),
    )
