-- ===== src/Pool.antt =====
-- The account pool of internal/provider/provider.go: its state and the operator's policy. The
-- children hold the operations: Bucket the request budgets, Faults the verdicts of the upstream,
-- Pins the affinities, Runs the account runs, Pick the strategies, Next the choice of a request and
-- Setup the pool of a configuration.
pub mod Bucket
pub mod Faults
pub mod Pins
pub mod Runs
pub mod Pick
pub mod Next
pub mod Setup
pub mod Slots
pub mod Recency
pub mod Parole
pub mod Chosen
pub mod Granted
pub mod Served
pub mod Spending
pub mod Walls
pub mod Sync
pub mod Calls
pub mod Bounded
use onegw.Prelude.{
  ℕ, zero, suc, ◌+◌, ◌*◌, ◌^◌, String, Bool, true, false, ◌&&◌, Option, none, some, List, [], ◌∷◌,
  ◌++◌, length, get_elem?, str_eq, ltb, leb, ◌==◌, if◌then◌else◌,
}
use onegw.Prelude.Assoc.{Entries}

-- Durations and instants in nanoseconds; the instant 0 is the zero time.
abbrev pub second : ℕ
second = 1000000000

-- What the pool reads of a configured account.
pub record Account : Type 0 where
  pub name : String
  pub api_key : String
  pub account_weight : ℕ
  pub rpm : ℕ

-- The knobs of the operator; 0 is the shipped default.
pub record RotationPolicy : Type 0 where
  pub account_run_min : ℕ
  pub account_run_max : ℕ
  pub cool_base : ℕ
  pub cool_cap : ℕ
  pub flap_threshold : ℕ
  pub flap_open : ℕ
  pub bench_ttl : ℕ
  pub billing_parole : ℕ

-- A budget in units of 1 / (60 * 10^9) of a request, in which a minute refills `refill` requests.
pub record TokenBucket : Type 0 where
  pub tokens : ℕ
  pub refill : ℕ
  pub last : ℕ

-- A slot of the pool. A bucket is a place in the pool's list of buckets, since the slots of one
-- weighted account share it; `speed` is the order of the measured decode speeds.
pub record AccountState : Type 0 where
  pub acct : Account
  pub invalidated : Bool
  pub invalidated_at : ℕ
  pub last_used : ℕ
  pub cooldown : ℕ
  pub benched_at : ℕ
  pub strikes : ℕ
  pub bucket : Option ℕ
  pub speed : ℕ
  pub live : ℕ

pub record StickyPin : Type 0 where
  pub pin_name : String
  pub pin_key : String
  pub expires : ℕ

pub record WallSight : Type 0 where
  pub wall_acct : String
  pub seen_at : ℕ

-- `runs` is the slot of the run that is going on.
pub record AccountPool : Type 0 where
  pub accts : List AccountState
  pub buckets : List TokenBucket
  pub rr : ℕ
  pub ttl : ℕ
  pub sticky : Entries StickyPin
  pub shared : Option TokenBucket
  pub flap_strikes : ℕ
  pub flap_open_until : ℕ
  pub policy : RotationPolicy
  pub runs : Option ℕ
  pub served : ℕ
  pub run_max : ℕ
  pub selection : String
  pub deck : List ℕ
  pub deck_pos : ℕ
  pub walls : Entries WallSight

abbrev pub or_shipped : ℕ → ℕ → ℕ
or_shipped configured shipped = if ltb 0 configured then configured else shipped

unfoldable pub ladder_base : AccountPool → ℕ
ladder_base p = or_shipped p.policy.cool_base (10 * second)

unfoldable pub ladder_cap : AccountPool → ℕ
ladder_cap p = or_shipped p.policy.cool_cap (60 * second)

unfoldable pub flap_trip : AccountPool → ℕ
flap_trip p = or_shipped p.policy.flap_threshold 4

unfoldable pub flap_park : AccountPool → ℕ
flap_park p = or_shipped p.policy.flap_open (15 * second)

unfoldable pub parole : AccountPool → ℕ
parole p = or_shipped p.policy.billing_parole (1800 * second)

-- Accounts are told apart by name and key.
unfoldable pub same_account : Account → Account → Bool
same_account a b = str_eq a.name b.name && str_eq a.api_key b.api_key

-- A change of each slot of an account.
unfoldable pub update_slots :
    (AccountState → AccountState) → Account → List AccountState → List AccountState
update_slots f a [] = []
update_slots f a (s ∷ ss) =
    let rest = update_slots f a ss in if same_account s.acct a then f s ∷ rest else s ∷ rest

-- The first slot of an account, as `slot` finds it.
unfoldable pub slot : Account → List AccountState → Option ℕ
slot a [] = none
slot a (s ∷ ss) =
    let later = slot a ss in
    if same_account s.acct a then some 0 else (elim later [ none ↦ none | some i ↦ some (suc i) ])

abbrev pub fresh_slot : Account → Option ℕ → AccountState
fresh_slot a b = record {
  acct = a;
  invalidated = false;
  invalidated_at = 0;
  last_used = 0;
  cooldown = 0;
  benched_at = 0;
  strikes = 0;
  bucket = b;
  speed = 0;
  live = 0;
}
