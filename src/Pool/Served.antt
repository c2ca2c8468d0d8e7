-- ===== src/Pool/Served.antt =====
-- When `next` of provider.go hands out no slot: never while one is available and the shared budget
-- holds a request.
use native.Mathlib.Nat.{mod-add-mod, add-mod_right, mod-lt, mod-eq_of_lt}
use onegw.Prelude.{
  ℕ, zero, suc, ◌+◌, ◌-◌, ◌%◌, ◌≤◌, ◌<◌, ◌≡◌, refl, subst, sym, ◌∙◌, ap, String, Bool, true, false,
  ◌&&◌, none, some, List, [], ◌∷◌, arith, length, get_elem?, leb, ◌==◌, Bool-cases, Option-cases,
  inl, inr,
}
use onegw.Prelude.Assoc.{delete}
use onegw.Pool.{AccountState, AccountPool}
use onegw.Pool.Runs.{run_active, end_run}
use onegw.Pool.Pins.{pin_ttl}
use onegw.Pool.Pick.{Draws, elem, pick_slot}
use onegw.Pool.Next.{
  shared_ready, available_at, running, PinAnswer, serve_pinned, keep_pin, drop_pin, pinned, turns,
  open_slots, scan, next_pinned, next,
}
use onegw.Pool.Granted.{
  open_slots-some, scan-open, running-pool, available-running, available-unpinned,
}

turns-turn : (start n k j : ℕ) → j < k → elem ((start + j) % n) (turns start n k) ≡ true
unfolding turns
turns-turn start n zero j h = absurd (omega arith)
turns-turn start n (suc k) zero h = let z : start + 0 ≡ start = omega arith in rw z (ground arith)
turns-turn start n (suc k) (suc j) h =
    let z : suc start + j ≡ start + suc j = omega arith in
    subst (λ x. elem (x % n) (turns start n (suc k)) ≡ true) z
      (ground (arith, turns-turn (suc start) n k j (omega arith)))

-- Every place has its turn, from whatever start.
turn_of : (start n i : ℕ) → i < n → (j : ℕ) × ((j < n) × ((start + j) % n ≡ i))
turn_of start n i h =
    let r = start % n in
    let small : r < n = mod-lt start (omega arith) in
    elim (Bool-cases (leb r i)) [
      | inl e ↦
          let k : r + (i - r) ≡ i = ground (arith, e) in
          (
            i - r,
            (omega arith, sym (mod-add-mod start n (i - r)) ∙ ap (λ x. x % n) k ∙ mod-eq_of_lt h),
          )
      | inr e ↦
          let k : r + (i + n - r) ≡ i + n = ground (arith, e, small) in
          (
            i + n - r,
            (
              ground (arith, e, small),
              sym (mod-add-mod start n (i + n - r))
                  ∙ ap (λ x. x % n) k
                  ∙ add-mod_right i n
                  ∙ mod-eq_of_lt h,
            ),
          )
    ]

turns-elem : (start n i : ℕ) → i < n → elem i (turns start n n) ≡ true
turns-elem start n i h =
    let (j, (k, e)) = turn_of start n i h in
    subst (λ x. elem x (turns start n n) ≡ true) e (turns-turn start n n j k)

in_range : (p : AccountPool) (now i : ℕ) → available_at p now i ≡ true → i < length p.accts
in_range p now i h = go p.accts i (λ e. absurd (ground (arith, h, e)))
  where
    go :
        (ss : List AccountState) (k : ℕ) → (get_elem? ss k ≡ none → zero ≡ suc zero) → k < length ss
    go [] k f = absurd (ground (arith, f refl))
    go (s ∷ ss) zero f = omega arith
    go (s ∷ ss) (suc k) f = omega (arith, go ss k f)

-- A scan finds a slot when there is one.
scan-serves :
    (p : AccountPool) (w : Draws) (now : ℕ) (id : String) (keep : Bool) (start i : ℕ)
    → shared_ready p now ≡ 0
    → available_at p now i ≡ true
    → (j : ℕ) × ((scan p w now id keep start).1 ≡ some j)
scan-serves p w now id keep start i h a = go (open_slots p now order) refl
  where
    order : List ℕ
    order = turns start (length p.accts) (length p.accts)

    there : elem i (open_slots p now order) ≡ true
    there =
        open_slots-some p now order i (turns-elem start (length p.accts) i (in_range p now i a)) a

    go :
        (xs : List ℕ)
        → open_slots p now order ≡ xs
        → (j : ℕ) × ((scan p w now id keep start).1 ≡ some j)
    go [] e = absurd (ground (arith, there, e))
    go (x ∷ xs) e = ((pick_slot p w now x xs).1, scan-open p w now id keep start x xs h e)

shared-unpinned :
    (p : AccountPool) (id : String) (now : ℕ)
    → shared_ready (record p { sticky = delete id p.sticky }) now ≡ shared_ready p now
unfolding shared_ready
shared-unpinned p id now = refl

shared-end_run : (p : AccountPool) (now : ℕ) → shared_ready (end_run p) now ≡ shared_ready p now
unfolding shared_ready end_run
shared-end_run p now = refl

-- Everything after the runs: a slot is served when one is open.
next_pinned-serves :
    (p : AccountPool) (w : Draws) (now : ℕ) (id : String) (i : ℕ)
    → shared_ready p now ≡ 0
    → available_at p now i ≡ true
    → (j : ℕ) × ((next_pinned p w now id).1 ≡ some j)
unfolding next_pinned
next_pinned-serves p w now id i h a = elim (Bool-cases (pin_ttl p id == 0)) [
  | inl e ↦ let (j, k) = scan-serves p w now id false p.rr i h a in (j, ground (arith, e, k))
  | inr e ↦ go (pinned p now id) refl e
]
  where
    go :
        (b : PinAnswer)
        → pinned p now id ≡ b
        → (pin_ttl p id == 0) ≡ false
        → (j : ℕ) × ((next_pinned p w now id).1 ≡ some j)
    go (serve_pinned k) b e = (k, ground (arith, e, b))
    go keep_pin b e =
        let (j, k) = scan-serves p w now id true p.rr i h a in (j, ground (arith, e, b, k))
    go (drop_pin start) b e =
        let (j, k) =
          scan-serves (record p { sticky = delete id p.sticky }) w now id false start i
            (shared-unpinned p id now ∙ h) (available-unpinned p id now i ∙ a) in
        (j, ground (arith, e, b, k))

shared-running : (p : AccountPool) (now n : ℕ) → shared_ready (running p now).0 n ≡ shared_ready p n
shared-running p now n = elim (running-pool p now) [
  | inl e ↦ ap (λ q. shared_ready q n) e
  | inr e ↦ ap (λ q. shared_ready q n) e ∙ shared-end_run p n
]

-- While the flap breaker is closed and the shared budget holds a request, `next` serves a slot
-- whenever one is available, whatever the strategy, the draws, the runs and the pins.
pub next-serves :
    (p : AccountPool) (w : Draws) (now : ℕ) (id : String) (i : ℕ)
    → p.flap_open_until ≤ now
    → shared_ready p now ≡ 0
    → available_at p now i ≡ true
    → (j : ℕ) × ((next p w now id).1 ≡ some j)
unfolding next
next-serves p w now id i c h a = elim (Bool-cases (run_active p && (pin_ttl p id == 0))) [
  | inr f ↦ let (j, k) = next_pinned-serves p w now id i h a in (j, ground (arith, c, f, k))
  | inl f ↦ elim (Option-cases (running p now).1) [
    | inr (j, k) ↦ (j, ground (arith, c, f, k))
    | inl k ↦
        let (j, l) =
          next_pinned-serves (running p now).0 w now id i (shared-running p now now ∙ h)
            (available-running p now now i ∙ a) in
        (j, ground (arith, c, f, k, l))
  ]
]
