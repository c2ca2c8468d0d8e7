-- ===== src/Pool/Faults.antt =====
-- What the answers of the upstream do to the slots in provider.go: cooldowns after a 429, the mark
-- of a billing refusal, the recovery by a success, the flap breaker and the burst wall.
use onegw.Prelude.{
  ℕ, suc, ◌+◌, ◌-◌, ◌*◌, ◌^◌, min, String, Bool, true, false, not, ◌&&◌, ◌||◌, Option, none, some,
  List, [], ◌∷◌, get_elem?, str_eq, ltb, leb, ◌==◌, if◌then◌else◌,
}
use onegw.Prelude.Assoc.{lookup, insert, delete}
use onegw.Pool.{
  second, Account, AccountState, WallSight, AccountPool, ladder_base, ladder_cap, flap_trip,
  flap_park, parole, same_account, update_slots, slot, TokenBucket,
}
use onegw.Pool.Bucket.{refill_at}
use onegw.Pool.Runs.{end_run_for, run_active}

-- The bench of a slot until an instant: a cooldown is only ever extended.
unfoldable pub bench : ℕ → ℕ → AccountState → AccountState
bench now d s =
    let cd = if ltb s.cooldown now then now else s.cooldown in
    if ltb cd (now + d)
    then record s { cooldown = now + d; benched_at = now }
    else record s { cooldown = cd }

-- The ladder of consecutive 429s.
unfoldable pub ladder : AccountPool → ℕ → ℕ
ladder p cur = min (ladder_base p * 2 ^ min cur 3) (ladder_cap p)

-- The strikes of an account, read of its first slot.
unfoldable pub strikes_of : AccountPool → Account → Option ℕ
strikes_of p a = elim (slot a p.accts) [
  | none ↦ none
  | some i ↦ elim (get_elem? p.accts i) [ none ↦ none | some s ↦ some s.strikes ]
]

-- `rateLimited`, where a Retry-After of 0 stands for none.
unfoldable pub rate_limited : AccountPool → ℕ → Account → ℕ → AccountPool
rate_limited p now a retry_after = elim (strikes_of p a) [
  | none ↦ p
  | some cur ↦
      let d = if retry_after == 0 then ladder p cur else retry_after in
      let p' = record p {
        accts = update_slots (λ s. bench now d (record s { strikes = suc cur })) a p.accts;
      } in
      if run_active p' then end_run_for p' a else p'
]

-- The method `cool`, for an exhausted quota. It ends a run once for each slot of the pool, and a
-- second time changes nothing; a pool has slots.
unfoldable pub cool : AccountPool → ℕ → Account → ℕ → AccountPool
cool p now a d =
    let p' = record p { accts = update_slots (bench now d) a p.accts } in
    if run_active p' then end_run_for p' a else p'

-- What a success that began at an instant clears of a slot: only what is older than that.
unfoldable pub heal : ℕ → AccountState → AccountState
heal since s =
    let freed = s.invalidated && ltb s.invalidated_at since in
    let thawed = not (s.cooldown == 0) && ltb s.benched_at since in
    record s {
      strikes = 0;
      invalidated = if freed then false else s.invalidated;
      invalidated_at = if freed then 0 else s.invalidated_at;
      cooldown = if thawed then 0 else s.cooldown;
      benched_at = if thawed then 0 else s.benched_at;
    }

-- The method `ok`.
unfoldable pub ok : AccountPool → Account → ℕ → AccountPool
ok p a since = record p { accts = update_slots (heal since) a p.accts }

-- The answer is whether some slot was not yet marked.
unfoldable pub any_valid : Account → List AccountState → Bool
any_valid a [] = false
any_valid a (s ∷ ss) =
    let rest = any_valid a ss in (same_account s.acct a && not s.invalidated) || rest

unfoldable pub refuse : ℕ → AccountState → AccountState
refuse now s = record s { invalidated = true; invalidated_at = now }

unfoldable pub invalidate : AccountPool → ℕ → Account → AccountPool × Bool
invalidate p now a = (record p { accts = update_slots (refuse now) a p.accts }, any_valid a p.accts)

unfoldable pub any_invalidated : Account → List AccountState → Bool
any_invalidated a [] = false
any_invalidated a (s ∷ ss) =
    let rest = any_invalidated a ss in (same_account s.acct a && s.invalidated) || rest

unfoldable pub restore : AccountState → AccountState
restore s =
    if s.invalidated
    then record s {
      invalidated = false;
      invalidated_at = 0;
      strikes = 0;
      cooldown = 0;
      benched_at = 0;
    }
    else s

unfoldable pub revalidate : AccountPool → Account → AccountPool × Bool
revalidate p a = (record p { accts = update_slots restore a p.accts }, any_invalidated a p.accts)

-- The gate of a marked slot: the instant of its probe, 0 when there is none, and whether it is due.
unfoldable pub parole_open : AccountPool → AccountState → ℕ → ℕ × Bool
parole_open p s now =
    if s.invalidated_at == 0
    then (0, false)
    else (let gate = s.invalidated_at + parole p in
        if ltb now gate then (gate, false) else (0, true))

-- The gates below the mark: the cooldown, and the bucket where there is one.
unfoldable pub gates : List TokenBucket → AccountState → ℕ → Bool × ℕ
gates buckets s now =
    let cooling = not (s.cooldown == 0) && leb now s.cooldown in
    let free = if cooling then (false, s.cooldown) else (true, 0) in
    elim s.bucket [
      | none ↦ free
      | some i ↦ elim (get_elem? buckets i) [
        | none ↦ free
        | some b ↦
            let r = refill_at b now in
            if cooling
            then (false, if ltb s.cooldown r then r else s.cooldown)
            else if ltb now r
            then (false, r)
            else (true, 0)
      ]
    ]

-- The method `available`: whether a slot may serve, and when it may if it may not.
unfoldable pub available : AccountPool → AccountState → ℕ → Bool × ℕ
available p s now =
    let (gate, due) = parole_open p s now in
    if s.invalidated && not due then (false, gate) else gates p.buckets s now

unfoldable pub flap_strike : AccountPool → ℕ → AccountPool
flap_strike p now =
    let n = suc p.flap_strikes in
    let t = now + flap_park p in
    record p {
      flap_strikes = n;
      flap_open_until =
          if leb (flap_trip p) n && ltb p.flap_open_until t then t else p.flap_open_until;
    }

unfoldable pub flap_heal : AccountPool → AccountPool
flap_heal p = record p { flap_strikes = 0; flap_open_until = 0 }

abbrev pub wall_window : ℕ
wall_window = 5 * second

-- Whether a sighting of a 429 at a model proves, with the one before, a wall that accounts share.
unfoldable pub proves : ℕ → String → Bool → WallSight → Bool
proves now acct text prev =
    leb (now - prev.seen_at) wall_window && (text || not (str_eq prev.wall_acct acct))

unfoldable pub see_wall : AccountPool → ℕ → String → String → AccountPool
see_wall p now model acct = record p {
  walls = insert model (record { wall_acct = acct; seen_at = now }) p.walls;
}

unfoldable pub wall_strike : AccountPool → ℕ → String → String → Bool → AccountPool × Bool
wall_strike p now model acct text = elim (lookup model p.walls) [
  | none ↦ (see_wall p now model acct, false)
  | some prev ↦
      if proves now acct text prev
      then (record p { walls = delete model p.walls }, true)
      else (see_wall p now model acct, false)
]
