-- ===== src/Router/RoundRobin/Sticky.antt =====
-- Who leads the next request of a round-robin combo in router.go.
use onegw.Prelude.{
  ℕ, zero, suc, ◌%◌, ◌≤◌, ◌<◌, ◌≡◌, ◌⊎◌, inl, inr, refl, sym, ◌∙◌, ap, Bool, true, false, ◌&&◌,
  none, some, List, [], ◌∷◌, arith, length, get_elem?, leb, ◌==◌, if◌then◌else◌, Bool-cases,
  Option-cases,
}
use onegw.Policy.{Target}
use onegw.Router.RoundRobin.{
  ComboRr, lead, rotate, same_target, index_of, original, count_success, record_success,
}
use onegw.Router.RoundRobin.Places.{get_elem?-rotated, length-rotated}

pub lead-lt : (st : ComboRr) (limit n : ℕ) → 0 < n → lead st limit n < n
unfolding lead
lead-lt st limit n h = grind arith

index_of-target :
    (served : Target) (ts : List Target) (i : ℕ)
    → index_of served ts ≡ some i
    → (i < length ts) × ((t : Target) × (get_elem? ts i ≡ some t) × (same_target t served ≡ true))
unfolding index_of
index_of-target served [] i h = cc
index_of-target served (t ∷ ts) i h = elim (Bool-cases (same_target t served)) [
  | inl s ↦ let z : i ≡ 0 = ground arith in (omega (arith, z), (t, rw z refl, s))
  | inr s ↦ elim (Option-cases (index_of served ts)) [
    | inl q ↦ absurd (ground arith)
    | inr (j, q) ↦
        let e : i ≡ suc j = ground arith in
        let (small, (a, here, same)) = index_of-target served ts j q in
        (omega (arith, e, small), (a, rw e here, same))
  ]
]

-- The rotated chain is the configured one, moved round.
rotate-place :
    (st : ComboRr) (limit : ℕ) (targets : List Target) (i : ℕ)
    → i < length targets
    → get_elem? (rotate st limit targets).1 i
      ≡ get_elem? targets (original (rotate st limit targets).0 (length targets) i)
unfolding rotate
rotate-place st limit targets i h =
    let l = lead st limit (length targets) in
    ground (arith, lead-lt st limit (length targets) (omega arith), get_elem?-rotated l i targets)

length-rotate :
    (st : ComboRr) (limit : ℕ) (targets : List Target)
    → length (rotate st limit targets).1 ≡ length targets
unfolding rotate
length-rotate st limit [] = refl
length-rotate st limit (t ∷ ts) =
    let l = lead st limit (length (t ∷ ts)) in
    ground (arith, lead-lt st limit (length (t ∷ ts)) (omega arith), length-rotated l (t ∷ ts))

-- After a place of the chain has served: its run has ended and the place after it leads, or the run
-- goes on and it leads again.
abbrev pub NextLead : ComboRr → ℕ → ℕ → ℕ → Type 0
NextLead st limit n place =
    ((st.winner ≡ none) × (st.run ≡ 0) × (lead st limit n ≡ suc place % n))
    ⊎ ((st.winner ≡ some place) × (1 ≤ st.run) × (st.run < limit) × (lead st limit n ≡ place))

next_lead :
    (st : ComboRr) (limit n idx place : ℕ)
    → place < n
    → NextLead (count_success st limit idx place) limit n place
unfolding count_success lead
next_lead st limit n idx place h =
    let again =
      idx == 0 && (elim st.winner as (λ _. Bool) [ none ↦ false | some w ↦ w == place ]) in
    let run = if again then suc st.run else 1 in
    elim (Bool-cases (leb limit run)) [
      | inl full ↦ rw (full, count_success) (inl (refl, refl, refl))
      | inr short ↦ rw (short, count_success) (inr (refl, ground arith, ground arith, ground arith))
    ]

original-lt : (l n idx : ℕ) → idx < n → original l n idx < n
original-lt l n idx h = grind arith

-- A success is booked on the configured place of the target that served, whatever leg of the rotated
-- chain it was, and decides who leads the next request.
pub record_success-next :
    (st : ComboRr) (limit idx : ℕ) (targets : List Target) (served : Target)
    → 2 ≤ length targets
    → index_of served (rotate st limit targets).1 ≡ some idx
    → let (l, rotated) = rotate st limit targets in
      (place : ℕ) × (t : Target) × (get_elem? targets place ≡ some t)
      × (same_target t served ≡ true)
      × NextLead (record_success st limit l rotated served) limit (length targets) place
unfolding record_success
record_success-next st limit idx targets served two h =
    let (l, rotated) = rotate st limit targets in
    let n = length targets in
    let len = length-rotate st limit targets in
    let (small, (t, here, same)) = index_of-target served rotated idx h in
    let place = original l n idx in
    let booked : record_success st limit l rotated served ≡ count_success st limit idx place =
      ground (arith, len, h) in
    (
      place,
      t,
      sym (rotate-place st limit targets idx (omega (arith, len, small))) ∙ here,
      same,
      rw booked (next_lead st limit n idx place (original-lt l n idx (omega (arith, len, small)))),
    )

-- The states of a combo whose leader serves every request.
unfoldable pub lead_serves : ℕ → ℕ → ℕ → ComboRr → ComboRr
lead_serves zero limit n st = st
lead_serves (suc k) limit n st =
    let st' = lead_serves k limit n st in count_success st' limit 0 (lead st' limit n)

-- Between two runs a target leads as many requests as the limit says, and then the next one leads.
lead_serves_turn :
    (limit n counter k : ℕ)
    → 0 < n
    → k < limit
    → let st = lead_serves k limit n (record { counter = counter; winner = none; run = 0 }) in
      (lead st limit n ≡ counter % n)
      × (count_success st limit 0 (counter % n) ≡ (
          if suc k == limit
          then record { counter = suc (counter % n); winner = none; run = 0 }
          else record { counter = counter; winner = some (counter % n); run = suc k }))
unfolding lead_serves lead count_success
lead_serves_turn limit n counter zero pos less = (refl, ground arith)
lead_serves_turn limit n counter (suc k) pos less =
    let st = lead_serves k limit n (record { counter = counter; winner = none; run = 0 }) in
    let ih = lead_serves_turn limit n counter k pos (omega arith) in
    let goes_on : (suc k == limit) ≡ false = ground arith in
    let now : count_success st limit 0 (lead st limit n)
        ≡ record { counter = counter; winner = some (counter % n); run = suc k } =
      ap (count_success st limit 0) ih.0 ∙ (ih.1 ∙ rw goes_on) in
    rw now (ground arith, ground arith)
