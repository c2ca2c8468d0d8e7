-- ===== src/Budget/Steps.antt =====
-- The books of the memory budget of sem.go, whatever the interleaving.
use onegw.Prelude.{
  ℕ, zero, suc, ◌+◌, ◌-◌, min, ◌≤◌, ◌≡◌, refl, sym, subst, ap, ◌∙◌, true, false, some, List, [],
  ◌∷◌, arith, length, leb, Bool-cases, Option-cases, inl, inr, All,
}
use onegw.Budget.{
  Served, Event, begin, tick, give_up, finish, new_byte_budget, clamp, attempt, release, pull,
  arrive, tick_of, gave_up, finished, step, run, start,
}

unfoldable pub sum : List ℕ → ℕ
sum [] = 0
sum (x ∷ xs) = x + sum xs

-- The held bytes are those of the admitted requests, within the capacity, the counter of waiters
-- counts them, and none of them asks for more than the capacity.
pub record Balanced (s : Served) : Type 0 where
  pub books : s.budget.held ≡ sum s.taken
  pub fits : s.budget.held ≤ s.budget.capacity
  pub counted : s.budget.waiting ≡ length s.asked
  pub clamped : All (λ k. k ≤ s.budget.capacity) s.asked

pull-sum :
    (i : ℕ) (xs : List ℕ) (k : ℕ) (rest : List ℕ)
    → pull i xs ≡ some (k, rest)
    → (sum xs ≡ k + sum rest) × (length xs ≡ suc (length rest))
unfolding pull sum
pull-sum i [] k rest h = ground (arith, h)
pull-sum zero (x ∷ xs) k rest h = ground (arith, h)
pull-sum (suc i) (x ∷ xs) k rest h = elim (Option-cases (pull i xs)) [
  | inl e ↦ absurd (ground (arith, h, e))
  | inr ((y, ys), e) ↦ ground (arith, h, e, pull-sum i xs y ys e)
]

pull-All :
    (c i : ℕ) (xs : List ℕ) (k : ℕ) (rest : List ℕ)
    → All (λ n. n ≤ c) xs
    → pull i xs ≡ some (k, rest)
    → All (λ n. n ≤ c) rest
unfolding pull
pull-All c i [] k rest a h = absurd (ground (arith, h))
pull-All c zero (x ∷ xs) k rest a h =
    let e : xs ≡ rest = ground (arith, h) in subst (λ ys. All (λ n. n ≤ c) ys) e a.1
pull-All c (suc i) (x ∷ xs) k rest a h = elim (Option-cases (pull i xs)) [
  | inl e ↦ absurd (ground (arith, h, e))
  | inr ((y, ys), e) ↦
      let z : x ∷ ys ≡ rest = ground (arith, h, e) in
      subst (λ zs. All (λ n. n ≤ c) zs) z (a.0, pull-All c i xs y ys a.1 e)
]

pulled :
    (c i : ℕ) (xs : List ℕ) (k : ℕ) (rest : List ℕ)
    → All (λ n. n ≤ c) xs
    → pull i xs ≡ some (k, rest)
    → k ≤ c
unfolding pull
pulled c i [] k rest a h = absurd (ground (arith, h))
pulled c zero (x ∷ xs) k rest a h = ground (arith, h, a.0)
pulled c (suc i) (x ∷ xs) k rest a h = elim (Option-cases (pull i xs)) [
  | inl e ↦ absurd (ground (arith, h, e))
  | inr ((y, ys), e) ↦ pulled c i xs k ys a.1 (ground (arith, h, e))
]

module _ (s : Served) where
  -- The server after a request of k bytes is admitted, and the others that wait.
  abbrev admit : ℕ → List ℕ → ℕ → Served
  admit k others waiters = record {
    budget = record s.budget { held = s.budget.held + k; waiting = waiters };
    taken = k ∷ s.taken;
    asked = others;
  }

  admit-Balanced :
      (k : ℕ) (others : List ℕ) (waiters : ℕ)
      → Balanced s
      → leb k (s.budget.capacity - s.budget.held) ≡ true
      → waiters ≡ length others
      → All (λ n. n ≤ s.budget.capacity) others
      → Balanced (admit k others waiters)
  unfolding sum
  admit-Balanced k others waiters b e w a = record {
    books = omega (arith, b.books);
    fits = ground (arith, b.fits, e);
    counted = w;
    clamped = a;
  }

  arrive-Balanced : (n : ℕ) → Balanced s → Balanced (arrive s n)
  unfolding arrive attempt clamp
  arrive-Balanced n b =
      elim (Bool-cases (leb (min n s.budget.capacity) (s.budget.capacity - s.budget.held))) [
        | inl e ↦ subst Balanced (sym (arrive-admits e)) (
            admit-Balanced (min n s.budget.capacity) s.asked s.budget.waiting b e b.counted
              b.clamped)
        | inr e ↦ subst Balanced (sym (arrive-waits e)) (record {
          books = b.books;
          fits = b.fits;
          counted = ground (arith, b.counted);
          clamped = (omega arith, b.clamped);
        })
      ]
    where
      k : ℕ
      k = min n s.budget.capacity

      arrive-admits :
          leb k (s.budget.capacity - s.budget.held) ≡ true
          → arrive s n ≡ admit k s.asked s.budget.waiting
      arrive-admits e = ground (arith, e)

      arrive-waits :
          leb k (s.budget.capacity - s.budget.held) ≡ false
          → arrive s n ≡ record s {
            budget = record s.budget { waiting = suc s.budget.waiting };
            asked = k ∷ s.asked;
          }
      arrive-waits e = ground (arith, e)

  tick-Balanced : (i : ℕ) → Balanced s → Balanced (tick_of s i)
  unfolding tick_of attempt
  tick-Balanced i b = elim (Option-cases (pull i s.asked)) [
    | inl e ↦ let z : tick_of s i ≡ s = ground (arith, e) in subst Balanced (sym z) b
    | inr ((k, rest), e) ↦ elim (Bool-cases (leb k (s.budget.capacity - s.budget.held))) [
      | inr f ↦ let z : tick_of s i ≡ s = ground (arith, e, f) in subst Balanced (sym z) b
      | inl f ↦
          let z : tick_of s i ≡ admit k rest (s.budget.waiting - 1) = ground (arith, e, f) in
          subst Balanced (sym z) (
            admit-Balanced k rest (s.budget.waiting - 1) b f
              (omega (arith, b.counted, pull-sum i s.asked k rest e))
              (pull-All s.budget.capacity i s.asked k rest b.clamped e))
    ]
  ]

  gave_up-Balanced : (i : ℕ) → Balanced s → Balanced (gave_up s i)
  unfolding gave_up
  gave_up-Balanced i b = elim (Option-cases (pull i s.asked)) [
    | inl e ↦ let z : gave_up s i ≡ s = ground (arith, e) in subst Balanced (sym z) b
    | inr ((k, rest), e) ↦
        let left : Served = record s {
          budget = record s.budget {
            waiting = s.budget.waiting - 1;
            exhausted = suc s.budget.exhausted;
          };
          asked = rest;
        } in
        let z : gave_up s i ≡ left = ground (arith, e) in
        subst Balanced (sym z) (record {
          books = b.books;
          fits = b.fits;
          counted = omega (arith, b.counted, pull-sum i s.asked k rest e);
          clamped = pull-All s.budget.capacity i s.asked k rest b.clamped e;
        })
  ]

  finished-Balanced : (i : ℕ) → Balanced s → Balanced (finished s i)
  unfolding finished release
  finished-Balanced i b = elim (Option-cases (pull i s.taken)) [
    | inl e ↦ let z : finished s i ≡ s = ground (arith, e) in subst Balanced (sym z) b
    | inr ((k, rest), e) ↦
        let left : Served = record s { budget = release s.budget k; taken = rest } in
        let z : finished s i ≡ left = ground (arith, e) in
        subst Balanced (sym z) (record {
          books = omega (arith, b.books, pull-sum i s.taken k rest e);
          fits = omega (arith, b.fits);
          counted = b.counted;
          clamped = b.clamped;
        })
  ]

step-Balanced : (s : Served) (e : Event) → Balanced s → Balanced (step s e)
unfolding step
step-Balanced s (begin n) b = arrive-Balanced s n b
step-Balanced s (tick i) b = tick-Balanced s i b
step-Balanced s (give_up i) b = gave_up-Balanced s i b
step-Balanced s (finish i) b = finished-Balanced s i b

run-Balanced_from : (s : Served) (es : List Event) → Balanced s → Balanced (run s es)
unfolding run
run-Balanced_from s [] b = b
run-Balanced_from s (e ∷ es) b = run-Balanced_from (step s e) es (step-Balanced s e b)

-- Whatever the requests do and in whatever order, the held bytes of a new budget are the sum of what
-- the admitted requests took and stay within the capacity, the counter of waiters counts them, and
-- each waiter asks for no more than the capacity.
pub run-Balanced : (cap_bytes : ℕ) (es : List Event) → Balanced (run (start cap_bytes) es)
unfolding start new_byte_budget sum
run-Balanced cap_bytes es =
    run-Balanced_from (start cap_bytes) es
      (record { books = refl; fits = omega arith; counted = refl; clamped = tt })

-- Once the admitted requests of a balanced server have left, each waiter is admitted at its next tick:
-- no request asks for so much that it waits forever.
pub tick-admits :
    (cap_bytes : ℕ) (es : List Event) (i k : ℕ) (rest : List ℕ)
    → (run (start cap_bytes) es).taken ≡ []
    → pull i (run (start cap_bytes) es).asked ≡ some (k, rest)
    → (step (run (start cap_bytes) es) (tick i)).taken ≡ k ∷ []
unfolding step tick_of attempt sum
tick-admits cap_bytes es i k rest h e =
    let s = run (start cap_bytes) es in
    let b = run-Balanced cap_bytes es in
    let small : k ≤ s.budget.capacity = pulled s.budget.capacity i s.asked k rest b.clamped e in
    let free : s.budget.held ≡ 0 = b.books ∙ ap sum h in ground (arith, h, e, small, free)
