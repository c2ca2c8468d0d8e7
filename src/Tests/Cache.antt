-- ===== src/Tests/Cache.antt =====
-- A life of the cache of settled requests: two retries coalesce, and a third is replayed.
use onegw.Prelude.{◌+◌, ◌≡◌, inl, refl, false, some, List, [], ◌∷◌, arith, ltb, if◌then◌else◌}
use onegw.Idempotency.{
  Cache, Result, replay, conflict, new, claim, finish, find, expired, recorded, unrecorded, over,
  evictable, take_out, write, push_new, remove, settle, enforce, enforce_rounds, wake,
}
use onegw.Idempotency.Store.{total}
use onegw.Idempotency.Invariant.{IsValid}
use onegw.Idempotency.Replay.{fresh_entry, claim-finish}
use onegw.Idempotency.Delivery.{sent_to, registered}
use onegw.Idempotency.Runs.{Call, claim_at, finish_at, run, run-delivers, run-IsValid}

abbrev ok_result : Result
ok_result = record {
  status = 200;
  content_type = "json";
  body = 1 ∷ 2 ∷ [];
  stream = false;
  gone = false;
}

abbrev empty : Cache
empty = record { cap = 2; ttl = 50; ll = []; bytes = 0; next_waiter = 0 }

abbrev history : List Call
history =
    claim_at 10 "k"
    ∷ claim_at 11 "k"
    ∷ claim_at 12 "k"
    ∷ finish_at 20 "k" (some ok_result)
    ∷ claim_at 30 "k"
    ∷ claim_at 90 "k"
    ∷ []

empty_is_new : new 2 50 ≡ some empty
unfolding new
empty_is_new = refl

run-delivers_example :
    let (c', sent) = run empty history in
    registered 1 c' + sent_to 1 sent ≡ (if ltb 1 c'.next_waiter then 1 else 0)
run-delivers_example = run-delivers 2 50 1 empty history empty_is_new

both_waiters_served : (run empty history).1 ≡ (0, ok_result) ∷ (1, ok_result) ∷ []
unfolding run claim finish find expired recorded unrecorded over evictable take_out write push_new
    remove settle enforce enforce_rounds wake
both_waiters_served = refl

run-IsValid_example : IsValid (run empty history).0
run-IsValid_example = run-IsValid 2 50 empty history empty_is_new

-- One origin in flight for "k", and one for "j".
abbrev waiting : Cache
waiting = record {
  cap = 4;
  ttl = 50;
  ll = fresh_entry 10 "k" ∷ fresh_entry 11 "j" ∷ [];
  bytes = 0;
  next_waiter = 0;
}

waiting-IsValid : IsValid waiting
unfolding find total
waiting-IsValid = record {
  distinct = (refl, (refl, tt));
  counted = refl;
  settled = (inl refl, (inl refl, tt));
}

k_found : find "k" waiting.ll ≡ some (fresh_entry 10 "k")
unfolding find
k_found = refl

k_recorded : unrecorded ok_result ≡ false
unfolding unrecorded
k_recorded = refl

claim-finish_example :
    (claim (finish waiting 20 "k" (some ok_result)).0 30 "k").1
    ≡ (if (recorded ok_result).stream then conflict else replay (recorded ok_result))
claim-finish_example =
    claim-finish waiting waiting-IsValid 20 "k" (fresh_entry 10 "k") ok_result k_found refl
      k_recorded 30 (omega arith) (unfold recorded in omega arith) (unfold expired in refl)
