-- ===== src/Pool/Bounded.antt =====
-- The map of pins of provider.go through whole requests.
use onegw.Prelude.{
  ℕ, suc, ◌%◌, ◌≤◌, ◌≡◌, refl, sym, subst, ap, inl, inr, String, Bool, true, false, ◌&&◌, List, [],
  ◌∷◌, arith, length, get_elem?, ltb, ◌==◌, Bool-cases, Option-cases,
}
use onegw.Prelude.Assoc.{delete, length-delete}
use onegw.Pool.{AccountPool}
use onegw.Pool.Pins.{max_sticky_pins, pin_ttl}
use onegw.Pool.Runs.{run_active, start_run, end_run}
use onegw.Pool.Pick.{Draws, min_live, with_live, at_slot, deck_pick, by_strategy, pick_slot}
use onegw.Pool.Next.{
  PinAnswer, serve_pinned, keep_pin, drop_pin, grant, running, serve_run, pinned, turns, open_slots,
  shared_ready, scan, next_pinned, next,
}
use onegw.Pool.Granted.{running-pool}
use onegw.Pool.Walls.{pin-bounded}

sticky-deck_pick :
    (p : AccountPool) (w : Draws) (first : ℕ) (xs : List ℕ)
    → (deck_pick p w first xs).0.sticky ≡ p.sticky
unfolding deck_pick
sticky-deck_pick p w first xs = ground arith

sticky-by_strategy :
    (p : AccountPool) (w : Draws) (now first : ℕ) (xs : List ℕ)
    → (by_strategy p w now first xs).0.sticky ≡ p.sticky
unfolding by_strategy
sticky-by_strategy p w now first xs = ground (arith, sticky-deck_pick p w first (first ∷ xs))

sticky-pick_slot :
    (p : AccountPool) (w : Draws) (now first : ℕ) (xs : List ℕ)
    → (pick_slot p w now first xs).0.sticky ≡ p.sticky
unfolding pick_slot
sticky-pick_slot p w now first [] = refl
sticky-pick_slot p w now first (second ∷ others) =
    go
      (with_live p (min_live p (at_slot (λ s. s.live) p first) (second ∷ others))
        (first ∷ second ∷ others))
      refl
  where
    go :
        (xs : List ℕ)
        → with_live p
            (min_live p (at_slot (λ s. s.live) p first) (second ∷ others))
            (first ∷ second ∷ others)
          ≡ xs
        → (pick_slot p w now first (second ∷ others)).0.sticky ≡ p.sticky
    go [] e = ground (arith, e, sticky-by_strategy p w now first (second ∷ others))
    go (i ∷ []) e = ground (arith, e)
    go (i ∷ j ∷ rest) e = ground (arith, e, sticky-by_strategy p w now i (j ∷ rest))

scan-bounded :
    (p : AccountPool) (w : Draws) (now : ℕ) (id : String) (keep : Bool) (start : ℕ)
    → length p.sticky ≤ max_sticky_pins
    → length (scan p w now id keep start).0.sticky ≤ max_sticky_pins
unfolding scan grant
scan-bounded p w now id keep start h =
    go (open_slots p now (turns start (length p.accts) (length p.accts))) refl
  where
    go :
        (xs : List ℕ)
        → open_slots p now (turns start (length p.accts) (length p.accts)) ≡ xs
        → length (scan p w now id keep start).0.sticky ≤ max_sticky_pins
    go [] e = ground (arith, e, h)
    go (i ∷ others) e =
        let chosen = (pick_slot p w now i others).1 in
        let p3 : AccountPool = record (grant (pick_slot p w now i others).0 chosen now) {
          rr = suc chosen % length p.accts;
        } in
        let small : length p3.sticky ≤ max_sticky_pins =
          subst (λ x. length x ≤ max_sticky_pins) (sym (sticky-pick_slot p w now i others)) h in
        elim (Bool-cases (shared_ready p now == 0)) [
          | inr f ↦ ground (arith, f, h)
          | inl f ↦ elim (Bool-cases keep) [
            | inl k ↦ ground (arith, e, f, k, small)
            | inr k ↦ elim (Option-cases (get_elem? p.accts chosen)) [
              | inl g ↦ ground (arith, e, f, k, g, small)
              | inr (s, g) ↦ ground (arith, e, f, k, g, pin-bounded p3 id s.acct now small)
            ]
          ]
        ]

next_pinned-bounded :
    (p : AccountPool) (w : Draws) (now : ℕ) (id : String)
    → length p.sticky ≤ max_sticky_pins
    → length (next_pinned p w now id).0.sticky ≤ max_sticky_pins
unfolding next_pinned grant
next_pinned-bounded p w now id h = elim (Bool-cases (pin_ttl p id == 0)) [
  | inl e ↦ ground (arith, e, scan-bounded p w now id false p.rr h)
  | inr e ↦ go (pinned p now id) refl e
]
  where
    go :
        (a : PinAnswer)
        → pinned p now id ≡ a
        → (pin_ttl p id == 0) ≡ false
        → length (next_pinned p w now id).0.sticky ≤ max_sticky_pins
    go (serve_pinned k) a e = ground (arith, a, e, h)
    go keep_pin a e = ground (arith, a, e, scan-bounded p w now id true p.rr h)
    go (drop_pin start) a e =
        let q : AccountPool = record p { sticky = delete id p.sticky } in
        ground (
          arith,
          a,
          e,
          scan-bounded q w now id false start (omega (arith, h, length-delete id p.sticky)),
        )

sticky-serve_run :
    (p : AccountPool) (now : ℕ) (pick_n : ℕ → ℕ) (i : ℕ)
    → (serve_run p now pick_n i).sticky ≡ p.sticky
unfolding serve_run grant start_run
sticky-serve_run p now pick_n i = ground arith

sticky-running : (p : AccountPool) (now : ℕ) → (running p now).0.sticky ≡ p.sticky
unfolding end_run
sticky-running p now = elim (running-pool p now) [
  | inl e ↦ ap (λ q. q.sticky) e
  | inr e ↦ ap (λ q. q.sticky) e
]

-- The requests of a pool: each with what is drawn for it, its instant and its identity.
unfoldable pub next_all : AccountPool → List (Draws × ℕ × String) → AccountPool
next_all p [] = p
next_all p (r ∷ requests) = next_all (next p r.0 r.1 r.2).0 requests

next-bounded :
    (p : AccountPool) (w : Draws) (now : ℕ) (id : String)
    → length p.sticky ≤ max_sticky_pins
    → length (next p w now id).0.sticky ≤ max_sticky_pins
unfolding next
next-bounded p w now id h = elim (Bool-cases (ltb now p.flap_open_until)) [
  | inl c ↦ ground (arith, c, h)
  | inr c ↦ elim (Bool-cases (run_active p && (pin_ttl p id == 0))) [
    | inr f ↦ ground (arith, c, f, next_pinned-bounded p w now id h)
    | inl f ↦
        let q : AccountPool = (running p now).0 in
        let small : length q.sticky ≤ max_sticky_pins =
          subst (λ x. length x ≤ max_sticky_pins) (sym (sticky-running p now)) h in
        elim (Option-cases (running p now).1) [
          | inl k ↦ ground (arith, c, f, k, next_pinned-bounded q w now id small)
          | inr (j, k) ↦ ground (arith, c, f, k, small, sticky-serve_run q now w.pick_n j)
        ]
  ]
]

-- The pins stay within their cap through any sequence of requests, if they are within it before.
next_all-bounded :
    (p : AccountPool) (requests : List (Draws × ℕ × String))
    → length p.sticky ≤ max_sticky_pins
    → length (next_all p requests).sticky ≤ max_sticky_pins
unfolding next_all
next_all-bounded p [] h = h
next_all-bounded p (r ∷ requests) h =
    next_all-bounded (next p r.0 r.1 r.2).0 requests (next-bounded p r.0 r.1 r.2 h)
