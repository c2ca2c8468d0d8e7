-- ===== src/Pool/Next.antt =====
-- The account of a request in provider.go (`next`): the breaker, the run that is going on, the pin of
-- the conversation, and at last a choice among the open slots.
use onegw.Prelude.{
  ℕ, zero, suc, ◌%◌, String, Bool, true, false, ◌&&◌, ◌||◌, Option, none, some, List, [], ◌∷◌,
  length, get_elem?, ltb, leb, ◌==◌, if◌then◌else◌,
}
use onegw.Prelude.Assoc.{lookup, delete}
use onegw.Pool.{AccountPool, TokenBucket, slot}
use onegw.Pool.Bucket.{refill_at, take_token}
use onegw.Pool.Faults.{available}
use onegw.Pool.Pins.{pin, pin_ttl}
use onegw.Pool.Runs.{run_active, start_run, end_run}
use onegw.Pool.Pick.{Draws, pick_slot}

-- When the shared budget holds a request: 0 is now.
unfoldable pub shared_ready : AccountPool → ℕ → ℕ
shared_ready p now = elim p.shared [
  | none ↦ 0
  | some b ↦ let r = refill_at b now in if ltb now r then r else 0
]

unfoldable pub update_nth {ℓ} : {A : Type ℓ} → ℕ → (A → A) → List A → List A
update_nth i f [] = []
update_nth zero f (x ∷ xs) = f x ∷ xs
update_nth (suc i) f (x ∷ xs) = x ∷ update_nth i f xs

abbrev pub spend : ℕ → TokenBucket → TokenBucket
spend now b = (take_token b now).0

-- What a pick spends: a token of the shared budget and one of the slot's own bucket.
unfoldable pub grant : AccountPool → ℕ → ℕ → AccountPool
grant p i now = record p {
  accts = update_nth i (λ s. record s { last_used = now }) p.accts;
  shared = elim p.shared [ none ↦ none | some b ↦ some (spend now b) ];
  buckets = elim (get_elem? p.accts i) [
    | none ↦ p.buckets
    | some s ↦ elim s.bucket [ none ↦ p.buckets | some k ↦ update_nth k (spend now) p.buckets ]
  ];
}

abbrev pub available_at : AccountPool → ℕ → ℕ → Bool
available_at p now i = elim (get_elem? p.accts i) [ none ↦ false | some s ↦ (available p s now).0 ]

-- The slot at which a new run may begin.
unfoldable pub fresh_run : AccountPool → ℕ → AccountPool × Option ℕ
fresh_run p now = (p, if available_at p now p.rr then some p.rr else none)

-- The slot of a run, if the request is served by one.
unfoldable pub running : AccountPool → ℕ → AccountPool × Option ℕ
unfolding fresh_run
running p now = elim p.runs [
  | none ↦ fresh_run p now
  | some r ↦
      if leb p.run_max p.served
      then fresh_run (end_run p) now
      else if ltb r (length p.accts)
      then (if available_at p now r then (p, some r) else fresh_run (end_run p) now)
      else (p, none)
]

-- The pool after a slot serves a request of a run.
unfoldable pub serve_run : AccountPool → ℕ → (ℕ → ℕ) → ℕ → AccountPool
serve_run p now pick_n i =
    grant
      (elim p.runs [ none ↦ start_run p pick_n i | some r ↦ record p { served = suc p.served } ]) i
      now

-- What a pin says of a request: it is served by the slot, it goes elsewhere and the pin stays, or the
-- pin is dropped and the rotation starts at a slot.
pub data PinAnswer : Type 0 where
  serve_pinned : ℕ → PinAnswer
  keep_pin : PinAnswer
  drop_pin : ℕ → PinAnswer

unfoldable pub pinned_slot : AccountPool → ℕ → ℕ → PinAnswer
unfolding shared_ready
pinned_slot p now i = elim (get_elem? p.accts i) [
  | none ↦ drop_pin p.rr
  | some s ↦
      if (available p s now).0 && (shared_ready p now == 0)
      then (if s.live == 0 then serve_pinned i else keep_pin)
      else drop_pin (suc i)
]

unfoldable pub pinned : AccountPool → ℕ → String → PinAnswer
unfolding pinned_slot
pinned p now id = elim (lookup id p.sticky) [
  | none ↦ drop_pin p.rr
  | some k ↦
      if ltb now k.expires
      then (elim (slot
          (record { name = k.pin_name; api_key = k.pin_key; account_weight = 0; rpm = 0 })
          p.accts) [ none ↦ drop_pin p.rr | some i ↦ pinned_slot p now i ])
      else drop_pin p.rr
]

-- The places of n slots in turn.
unfoldable pub turns : ℕ → ℕ → ℕ → List ℕ
turns start n zero = []
turns start n (suc k) = (start % n) ∷ turns (suc start) n k

unfoldable pub open_slots : AccountPool → ℕ → List ℕ → List ℕ
open_slots p now [] = []
open_slots p now (i ∷ order) =
    let rest = open_slots p now order in if available_at p now i then i ∷ rest else rest

-- When a blocked slot says that it may serve; 0 for an open slot.
unfoldable pub blocked_until : AccountPool → ℕ → ℕ → ℕ
blocked_until p now i = elim (get_elem? p.accts i) [
  | none ↦ 0
  | some s ↦ if (available p s now).0 then 0 else (available p s now).1
]

-- The soonest instant that blocked slots report, 0 if none does.
unfoldable pub soonest : AccountPool → ℕ → ℕ → List ℕ → ℕ
soonest p now ready [] = ready
soonest p now ready (i ∷ order) =
    let r = blocked_until p now i in
    let sooner = soonest p now r order in
    let same = soonest p now ready order in
    if r == 0 then same else if (ready == 0) || ltb r ready then sooner else same

-- When a pool may serve that has no slot for the request now.
unfoldable pub ready_at : AccountPool → ℕ → List ℕ → ℕ
unfolding soonest open_slots shared_ready
ready_at p now order =
    let ready = soonest p now 0 order in
    let shared = shared_ready p now in
    if shared == 0 then ready else elim (open_slots p now order) [
      | [] ↦ if (ready == 0) || ltb ready shared then shared else ready
      | i ∷ more ↦ shared
    ]

-- The choice among the open slots from a start; the winner is pinned unless a pin is kept.
unfoldable pub scan : AccountPool → Draws → ℕ → String → Bool → ℕ → AccountPool × Option ℕ × ℕ
unfolding open_slots ready_at turns shared_ready
scan p w now id keep start =
    let n = length p.accts in
    let order = turns start n n in
    if shared_ready p now == 0
    then (elim (open_slots p now order) [
      | [] ↦ (p, none, ready_at p now order)
      | i ∷ others ↦
          let (p1, chosen) = pick_slot p w now i others in
          let p2 = grant p1 chosen now in
          let p3 = record p2 { rr = suc chosen % n } in
          (
            if keep
                then p3
                else elim (get_elem? p.accts chosen) [ none ↦ p3 | some s ↦ pin p3 id s.acct now ],
            some chosen,
            0,
          )
    ])
    else (p, none, ready_at p now order)

-- The part of `next` after the runs.
unfoldable pub next_pinned : AccountPool → Draws → ℕ → String → AccountPool × Option ℕ × ℕ
unfolding pinned scan
next_pinned p w now id =
    if pin_ttl p id == 0 then scan p w now id false p.rr else elim (pinned p now id) [
      | serve_pinned i ↦ (grant p i now, some i, 0)
      | keep_pin ↦ scan p w now id true p.rr
      | drop_pin start ↦ scan (record p { sticky = delete id p.sticky }) w now id false start
    ]

-- The slot that serves a request, or none and the instant to come back.
unfoldable pub next : AccountPool → Draws → ℕ → String → AccountPool × Option ℕ × ℕ
unfolding next_pinned running serve_run
next p w now id =
    if ltb now p.flap_open_until
    then (p, none, p.flap_open_until)
    else if run_active p && (pin_ttl p id == 0)
    then (let (p', r) = running p now in
        elim r [
          | some i ↦ (serve_run p' now w.pick_n i, some i, 0)
          | none ↦ next_pinned p' w now id
        ])
    else next_pinned p w now id
