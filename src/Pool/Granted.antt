-- ===== src/Pool/Granted.antt =====
-- Which slots `next` of provider.go hands out, and when it hands out none.
use onegw.Prelude.{
  ℕ, ◌≤◌, ◌≡◌, ◌⊎◌, refl, sym, ◌∙◌, ap, String, Bool, true, false, ◌&&◌, none, some, List, [], ◌∷◌,
  arith, length, ltb, leb, ◌==◌, Bool-cases, Option-cases, inl, inr,
}
use onegw.Prelude.Assoc.{lookup, delete}
use onegw.Pool.{AccountPool, slot, parole}
use onegw.Pool.Faults.{available, parole_open, gates}
use onegw.Pool.Runs.{run_active, end_run}
use onegw.Pool.Pins.{pin_ttl}
use onegw.Pool.Pick.{Draws, elem, pick_slot}
use onegw.Pool.Chosen.{pick_slot-elem}
use onegw.Pool.Next.{
  shared_ready, available_at, fresh_run, running, PinAnswer, serve_pinned, keep_pin, drop_pin,
  pinned_slot, pinned, turns, open_slots, scan, next_pinned, next,
}

open_slots-elem :
    (p : AccountPool) (now : ℕ) (xs : List ℕ) (i : ℕ)
    → elem i (open_slots p now xs) ≡ true
    → available_at p now i ≡ true
unfolding open_slots
open_slots-elem p now [] i h = ground (arith, h)
open_slots-elem p now (x ∷ xs) i h = ground (arith, h, open_slots-elem p now xs i)

pub open_slots-some :
    (p : AccountPool) (now : ℕ) (xs : List ℕ) (i : ℕ)
    → elem i xs ≡ true
    → available_at p now i ≡ true
    → elem i (open_slots p now xs) ≡ true
unfolding open_slots
open_slots-some p now [] i h e = ground (arith, h)
open_slots-some p now (x ∷ xs) i h e =
    ground (arith, h, e, λ (q : elem i xs ≡ true). open_slots-some p now xs i q e)

-- What the scan hands out of a list of open slots.
pub scan-open :
    (p : AccountPool) (w : Draws) (now : ℕ) (id : String) (keep : Bool) (start i : ℕ)
    (others : List ℕ)
    → shared_ready p now ≡ 0
    → open_slots p now (turns start (length p.accts) (length p.accts)) ≡ i ∷ others
    → (scan p w now id keep start).1 ≡ some (pick_slot p w now i others).1
unfolding scan
scan-open p w now id keep start i others h e = rw (scan, h, e) refl

scan-shut :
    (p : AccountPool) (w : Draws) (now : ℕ) (id : String) (keep : Bool) (start : ℕ)
    → open_slots p now (turns start (length p.accts) (length p.accts)) ≡ []
    → (scan p w now id keep start).1 ≡ none
unfolding scan
scan-shut p w now id keep start e = ground (arith, e)

pub scan-drained :
    (p : AccountPool) (w : Draws) (now : ℕ) (id : String) (keep : Bool) (start : ℕ)
    → (shared_ready p now == 0) ≡ false
    → (scan p w now id keep start).1 ≡ none
unfolding scan
scan-drained p w now id keep start e = ground (arith, e)

scan-granted :
    (p : AccountPool) (w : Draws) (now : ℕ) (id : String) (keep : Bool) (start i : ℕ)
    → (scan p w now id keep start).1 ≡ some i
    → available_at p now i ≡ true
scan-granted p w now id keep start i h = elim (Bool-cases (shared_ready p now == 0)) [
  | inr e ↦ absurd (ground (arith, h, scan-drained p w now id keep start e))
  | inl e ↦ go (open_slots p now (turns start (length p.accts) (length p.accts))) refl e
]
  where
    go :
        (xs : List ℕ)
        → open_slots p now (turns start (length p.accts) (length p.accts)) ≡ xs
        → (shared_ready p now == 0) ≡ true
        → available_at p now i ≡ true
    go [] k e = absurd (ground (arith, h, scan-shut p w now id keep start k))
    go (j ∷ others) k e =
        let c = (pick_slot p w now j others).1 in
        let same : c ≡ i =
          ground (arith, h, scan-open p w now id keep start j others (ground (arith, e)) k) in
        open_slots-elem p now (turns start (length p.accts) (length p.accts)) i
          (ground (arith, k, same, pick_slot-elem p w now j others))

pinned_slot-granted :
    (p : AccountPool) (now k i : ℕ)
    → pinned_slot p now k ≡ serve_pinned i
    → (k ≡ i) × (available_at p now k ≡ true)
unfolding pinned_slot
pinned_slot-granted p now k i h = ground (arith, h)

pinned-granted :
    (p : AccountPool) (now : ℕ) (id : String) (i : ℕ)
    → pinned p now id ≡ serve_pinned i
    → available_at p now i ≡ true
unfolding pinned
pinned-granted p now id i h = elim (Option-cases (lookup id p.sticky)) [
  | inl e ↦ absurd (ground (arith, h, e))
  | inr (pin, e) ↦
      elim (Option-cases (
        slot (record { name = pin.pin_name; api_key = pin.pin_key; account_weight = 0; rpm = 0 })
          p.accts)) [
            | inl f ↦ absurd (ground (arith, h, e, f))
            | inr (k, f) ↦
                let (same, free) = pinned_slot-granted p now k i (ground (arith, h, e, f)) in
                rw (← same) free
          ]
]

pub available-end_run :
    (p : AccountPool) (now i : ℕ) → available_at (end_run p) now i ≡ available_at p now i
unfolding end_run available parole_open gates parole
available-end_run p now i = refl

fresh_run-granted :
    (p : AccountPool) (now i : ℕ) → (fresh_run p now).1 ≡ some i → available_at p now i ≡ true
unfolding fresh_run
fresh_run-granted p now i h = elim (Bool-cases (available_at p now p.rr)) [
  | inl e ↦ let same : p.rr ≡ i = ground (arith, h, e) in rw (← same) e
  | inr e ↦ absurd (ground (arith, h, e))
]

running-granted :
    (p : AccountPool) (now i : ℕ) → (running p now).1 ≡ some i → available_at p now i ≡ true
unfolding running
running-granted p now i h = elim (Option-cases p.runs) [
  | inl e ↦ fresh_run-granted p now i (ground (arith, h, e))
  | inr (r, e) ↦ elim (Bool-cases (available_at p now r)) [
    | inl f ↦ elim (Bool-cases (leb p.run_max p.served)) [
      | inl c ↦ ended (ground (arith, h, e, c))
      | inr c ↦ let same : r ≡ i = ground (arith, h, e, f, c) in rw (← same) f
    ]
    | inr f ↦ ended (ground (arith, h, e, f))
  ]
]
  where
    ended : (fresh_run (end_run p) now).1 ≡ some i → available_at p now i ≡ true
    ended k = sym (available-end_run p now i) ∙ fresh_run-granted (end_run p) now i k

pub running-pool :
    (p : AccountPool) (now : ℕ) → ((running p now).0 ≡ p) ⊎ ((running p now).0 ≡ end_run p)
unfolding running fresh_run
running-pool p now = elim (Option-cases p.runs) [
  | inl e ↦ inl (ground (arith, e))
  | inr (r, e) ↦ elim (Bool-cases (leb p.run_max p.served)) [
    | inl c ↦ inr (ground (arith, e, c))
    | inr c ↦ elim (Bool-cases (ltb r (length p.accts))) [
      | inr l ↦ inl (ground (arith, e, c, l))
      | inl l ↦ elim (Bool-cases (available_at p now r)) [
        | inl f ↦ inl (ground (arith, e, c, l, f))
        | inr f ↦ inr (ground (arith, e, c, l, f))
      ]
    ]
  ]
]

pub available-running :
    (p : AccountPool) (now n i : ℕ) → available_at (running p now).0 n i ≡ available_at p n i
available-running p now n i = elim (running-pool p now) [
  | inl e ↦ ap (λ q. available_at q n i) e
  | inr e ↦ ap (λ q. available_at q n i) e ∙ available-end_run p n i
]

pub available-unpinned :
    (p : AccountPool) (id : String) (now i : ℕ)
    → available_at (record p { sticky = delete id p.sticky }) now i ≡ available_at p now i
unfolding available parole_open gates parole
available-unpinned p id now i = refl

next_pinned-granted :
    (p : AccountPool) (w : Draws) (now : ℕ) (id : String) (i : ℕ)
    → (next_pinned p w now id).1 ≡ some i
    → available_at p now i ≡ true
unfolding next_pinned
next_pinned-granted p w now id i h = elim (Bool-cases (pin_ttl p id == 0)) [
  | inl e ↦ scan-granted p w now id false p.rr i (ground (arith, h, e))
  | inr e ↦ go (pinned p now id) refl e
]
  where
    dropped :
        (start : ℕ)
        → (scan (record p { sticky = delete id p.sticky }) w now id false start).1 ≡ some i
        → available_at p now i ≡ true
    dropped start k =
        sym (available-unpinned p id now i)
        ∙ scan-granted (record p { sticky = delete id p.sticky }) w now id false start i k

    go :
        (a : PinAnswer)
        → pinned p now id ≡ a
        → (pin_ttl p id == 0) ≡ false
        → available_at p now i ≡ true
    go (serve_pinned k) a e =
        let same : k ≡ i = ground (arith, h, e, a) in
        pinned-granted p now id i (ground (arith, a, same))
    go keep_pin a e = scan-granted p w now id true p.rr i (ground (arith, h, e, a))
    go (drop_pin start) a e = dropped start (ground (arith, h, e, a))

-- Whatever the strategy, the draws, the runs and the pins: `next` hands out only a slot that is
-- available at that instant, and none while the flap breaker is open.
pub next-available :
    (p : AccountPool) (w : Draws) (now : ℕ) (id : String) (i : ℕ)
    → (next p w now id).1 ≡ some i
    → (p.flap_open_until ≤ now) × (available_at p now i ≡ true)
unfolding next
next-available p w now id i h = elim (Bool-cases (ltb now p.flap_open_until)) [
  | inl e ↦ absurd (ground (arith, h, e))
  | inr e ↦ (
    ground (arith, e),
    elim (Bool-cases (run_active p && (pin_ttl p id == 0))) [
      | inr f ↦ next_pinned-granted p w now id i (ground (arith, h, e, f))
      | inl f ↦ elim (Option-cases (running p now).1) [
        | inl k ↦
            sym (available-running p now now i)
            ∙ next_pinned-granted (running p now).0 w now id i (ground (arith, h, e, f, k))
        | inr (j, k) ↦
            let same : j ≡ i = ground (arith, h, e, f, k) in
            running-granted p now i (k ∙ ap some same)
      ]
    ],
  )
]
