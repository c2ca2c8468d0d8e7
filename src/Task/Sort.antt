-- ===== src/Task/Sort.antt =====
-- The stable sort of task.go's reordering: a permutation, in falling order, that keeps the order of
-- equal scores.
use mathlib.Core.List.{Perm}
use mathlib.Core.List.Perm
use onegw.Prelude.{
  ◌≡◌, refl, inl, inr, false, ◌&&◌, not, List, [], ◌∷◌, All, arith, if◌then◌else◌, Bool-cases,
}
use onegw.Prelude.Int.{ℤ, ltb_ℤ}
use onegw.Task.{Scored, insert_scored, sort_scored}

insert_scored-perm : (x : Scored) (ys : List Scored) → Perm (insert_scored x ys) (x ∷ ys)
unfolding insert_scored
insert_scored-perm x [] = Perm.refl (x ∷ [])
insert_scored-perm x (y ∷ ys) = elim (Bool-cases (ltb_ℤ x.score y.score)) [
  | inl h ↦ rw h (Perm.trans (Perm.cons y (insert_scored-perm x ys)) (Perm.swap x y ys))
  | inr h ↦ rw h (Perm.refl (x ∷ y ∷ ys))
]

pub sort_scored-perm : (xs : List Scored) → Perm (sort_scored xs) xs
unfolding sort_scored
sort_scored-perm [] = Perm.refl []
sort_scored-perm (x ∷ xs) =
    Perm.trans (insert_scored-perm x (sort_scored xs)) (Perm.cons x (sort_scored-perm xs))

-- No later element scores more.
abbrev pub NotAbove : Scored → Scored → Type 0
NotAbove x y = ltb_ℤ x.score y.score ≡ false

abbrev pub Descending : List Scored → Type 0
Descending [] = Unit {0}
Descending (x ∷ xs) = All (NotAbove x) xs × Descending xs

pub All-insert_scored :
    (P : Scored → Type 0) (x : Scored) (ys : List Scored)
    → P x
    → All P ys
    → All P (insert_scored x ys)
unfolding insert_scored
All-insert_scored P x [] p a = (p, tt)
All-insert_scored P x (y ∷ ys) p a = elim (Bool-cases (ltb_ℤ x.score y.score)) [
  | inl h ↦ rw h (a.0, All-insert_scored P x ys p a.1)
  | inr h ↦ rw h (p, a)
]

pub All-sort_scored : (P : Scored → Type 0) (xs : List Scored) → All P xs → All P (sort_scored xs)
unfolding sort_scored
All-sort_scored P [] a = tt
All-sort_scored P (x ∷ xs) a = All-insert_scored P x (sort_scored xs) a.0 (All-sort_scored P xs a.1)

NotAbove-trans : (x y z : Scored) → NotAbove x y → NotAbove y z → NotAbove x z
NotAbove-trans x y z h k = ground arith

NotAbove-below :
    (x y : Scored) (zs : List Scored) → NotAbove x y → All (NotAbove y) zs → All (NotAbove x) zs
NotAbove-below x y [] h a = tt
NotAbove-below x y (z ∷ zs) h a = (NotAbove-trans x y z h a.0, NotAbove-below x y zs h a.1)

insert_scored-Descending :
    (x : Scored) (ys : List Scored) → Descending ys → Descending (insert_scored x ys)
unfolding insert_scored
insert_scored-Descending x [] d = (tt, tt)
insert_scored-Descending x (y ∷ ys) d = elim (Bool-cases (ltb_ℤ x.score y.score)) [
  | inl h ↦
      rw h
        (All-insert_scored (NotAbove y) x ys (ground arith) d.0, insert_scored-Descending x ys d.1)
  | inr h ↦ rw h ((h, NotAbove-below x y ys h d.0), d)
]

pub sort_scored-Descending : (xs : List Scored) → Descending (sort_scored xs)
unfolding sort_scored
sort_scored-Descending [] = tt
sort_scored-Descending (x ∷ xs) =
    insert_scored-Descending x (sort_scored xs) (sort_scored-Descending xs)

-- The elements of one score, in their order.
unfoldable pub with_score : ℤ → List Scored → List Scored
with_score s [] = []
with_score s (x ∷ xs) =
    let rest = with_score s xs in
    if not (ltb_ℤ x.score s) && not (ltb_ℤ s x.score) then x ∷ rest else rest

insert_scored_stable :
    (s : ℤ) (x : Scored) (ys : List Scored)
    → with_score s (insert_scored x ys) ≡ with_score s (x ∷ ys)
unfolding insert_scored with_score
insert_scored_stable s x [] = refl
insert_scored_stable s x (y ∷ ys) = ground (arith, insert_scored_stable s x ys)

-- The stable sort of the scored targets keeps, for each score, the targets of that score in their
-- order.
sort_scored_stable : (s : ℤ) (xs : List Scored) → with_score s (sort_scored xs) ≡ with_score s xs
unfolding sort_scored with_score
sort_scored_stable s [] = refl
sort_scored_stable s (x ∷ xs) =
    rw (insert_scored_stable s x (sort_scored xs)) (ground (arith, sort_scored_stable s xs))
