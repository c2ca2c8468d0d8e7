-- ===== src/Pool/Setup.antt =====
-- The pool of a configuration (`newAccountPool`): a slot for each unit of an account's weight, and one
-- bucket that the slots of an account share.
use onegw.Prelude.{
  ℕ, max, Option, none, some, List, [], ◌∷◌, ◌++◌, length, replicate, ltb, if◌then◌else◌,
}
use onegw.Pool.{
  Account, AccountState, AccountPool, RotationPolicy, TokenBucket, same_account, fresh_slot,
}
use onegw.Pool.Bucket.{new_token_bucket}

-- The bucket of an account, among those made so far, the latest first.
unfoldable pub bucket_of : Account → List (Account × ℕ) → Option ℕ
bucket_of a [] = none
bucket_of a (made ∷ rest) =
    let earlier = bucket_of a rest in if same_account made.0 a then some made.1 else earlier

-- The slots and buckets of the accounts, after those made so far.
unfoldable pub slots_of :
    List Account → List TokenBucket → List (Account × ℕ) → List AccountState × List TokenBucket
slots_of [] buckets made = ([], buckets)
slots_of (a ∷ accounts) buckets made =
    let fresh = ltb 0 a.rpm in
    let buckets' = if fresh then buckets ++ new_token_bucket a.rpm ∷ [] else buckets in
    let made' = if fresh then (a, length buckets) ∷ made else made in
    let (slots, all) = slots_of accounts buckets' made' in
    (replicate (max 1 a.account_weight) (fresh_slot a (bucket_of a made')) ++ slots, all)

abbrev pub default_account : Account
default_account = record { name = "default"; api_key = ""; account_weight = 0; rpm = 0 }

-- Without accounts there is one of the name "default".
abbrev pub or_default : List Account → List Account
or_default [] = default_account ∷ []
or_default (a ∷ accounts) = a ∷ accounts

unfoldable pub new_account_pool : List Account → ℕ → ℕ → RotationPolicy → AccountPool
unfolding slots_of
new_account_pool accounts sticky shared_rpm policy =
    let (slots, buckets) = slots_of (or_default accounts) [] [] in
    record {
      accts = slots;
      buckets = buckets;
      rr = 0;
      ttl = sticky;
      sticky = [];
      shared = if ltb 0 shared_rpm then some (new_token_bucket shared_rpm) else none;
      flap_strikes = 0;
      flap_open_until = 0;
      policy = policy;
      runs = none;
      served = 0;
      run_max = 0;
      selection = "";
      deck = [];
      deck_pos = 0;
      walls = [];
    }
