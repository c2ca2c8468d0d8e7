-- ===== src/Router/RoundRobin.antt =====
-- The sticky round robin of router.go. The lock's state is one record for each combo; a target's
-- index is its place in the configured chain unless it is said to be rotated.
mod Places
pub mod Sticky
use onegw.Prelude.{
  ℕ, zero, suc, ◌+◌, ◌%◌, min, String, Bool, true, false, ◌&&◌, Option, none, some, List, [], ◌∷◌,
  ◌++◌, length, take, drop, str_eq, ltb, leb, ◌==◌, if◌then◌else◌,
}
use onegw.Policy.{Target}

pub record ComboRr : Type 0 where
  pub counter : ℕ
  pub winner : Option ℕ
  pub run : ℕ

abbrev pub rr_default_limit : ℕ
rr_default_limit = 3

-- `rrLimit`, of a configured limit where 0 stands for every limit that is not positive.
unfoldable pub rr_limit : ℕ → ℕ
rr_limit configured = if ltb 0 configured then min configured 1000 else rr_default_limit

-- The state of a combo that has none yet.
abbrev pub fresh_rr : ComboRr
fresh_rr = record { counter = 0; winner = none; run = 0 }

-- The target that leads the next request.
unfoldable pub lead : ComboRr → ℕ → ℕ → ℕ
lead st limit n = elim st.winner [
  | none ↦ st.counter % n
  | some w ↦ if ltb st.run limit && ltb w n then w else st.counter % n
]

-- `rotateRoundRobin`: the leader, and the chain that begins with it.
unfoldable pub rotate : ComboRr → ℕ → List Target → ℕ × List Target
unfolding lead
rotate st limit targets =
    if ltb (length targets) 2
    then (0, targets)
    else (let l = lead st limit (length targets) in
        (l, if l == 0 then targets else drop l targets ++ take l targets))

abbrev pub same_target : Target → Target → Bool
same_target a b = str_eq a.provider b.provider && str_eq a.model b.model

-- The first rotated place of the target that served.
unfoldable pub index_of : Target → List Target → Option ℕ
index_of served [] = none
index_of served (t ∷ ts) =
    if same_target t served
    then some 0
    else (elim (index_of served ts) [ none ↦ none | some i ↦ some (suc i) ])

-- The place in the configured chain of a rotated place.
abbrev pub original : ℕ → ℕ → ℕ → ℕ
original l n idx = if ltb 0 l then (idx + l) % n else idx

-- A run goes on only if its winner led and served again; at the limit the counter moves past it.
unfoldable pub count_success : ComboRr → ℕ → ℕ → ℕ → ComboRr
count_success st limit idx orig =
    let again = idx == 0 && (elim st.winner [ none ↦ false | some w ↦ w == orig ]) in
    let run = if again then suc st.run else 1 in
    if leb limit run
    then record { counter = suc orig; winner = none; run = 0 }
    else record { counter = st.counter; winner = some orig; run = run }

-- `recordRRSuccess` for the rotated chain and its leader.
unfoldable pub record_success : ComboRr → ℕ → ℕ → List Target → Target → ComboRr
unfolding index_of count_success
record_success st limit l rotated served =
    if ltb (length rotated) 2 then st else (elim (index_of served rotated) [
      | none ↦ st
      | some idx ↦ count_success st limit idx (original l (length rotated) idx)
    ])
