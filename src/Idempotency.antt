-- ===== src/Idempotency.antt =====
-- internal/idempotency/idempotency.go: the bounded cache of settled requests. The list `ll` is the
-- list of entries, the most recently used first, and `items` is read off it by key; a waiter is its
-- number, and what a method sends on the waiters' channels is returned with the new cache. A key is
-- the hash that `compositeKey` makes; instants and durations are numbers of nanoseconds.
pub mod Store
pub mod Invariant
pub mod Claims
pub mod Replay
pub mod Delivery
pub mod Runs
use onegw.Prelude.{
  ℕ, zero, suc, ◌+◌, ◌-◌, String, Bool, true, false, not, ◌||◌, ◌&&◌, Option, none, some, List, [],
  ◌∷◌, ◌++◌, map, length, str_eq, ltb, ◌==◌, if◌then◌else◌,
}

abbrev pub max_entries_hard : ℕ
max_entries_hard = 1024

abbrev pub default_entries : ℕ
default_entries = 128

abbrev pub entry_body_cap : ℕ
entry_body_cap = 1048576

abbrev pub total_body_budget : ℕ
total_body_budget = 4194304

pub record Result : Type 0 where
  pub status : ℕ
  pub content_type : String
  pub body : List ℕ
  pub stream : Bool
  pub gone : Bool

-- `complete` and `res` in one: a settled entry has its result.
pub record Entry : Type 0 where
  pub key : String
  pub created : ℕ
  pub res : Option Result
  pub waiters : List ℕ

pub record Cache : Type 0 where
  pub cap : ℕ
  pub ttl : ℕ
  pub ll : List Entry
  pub bytes : ℕ
  pub next_waiter : ℕ

pub data Decision : Type 0 where
  miss : Decision
  replay : Result → Decision
  conflict : Decision
  wait : ℕ → Decision

-- What is sent on the channel of a waiter.
abbrev pub Sent : Type 0
Sent = List (ℕ × Result)

abbrev pub gone_result : Result
gone_result = record { status = 0; content_type = ""; body = []; stream = false; gone = true }

-- `New`; a capacity or a ttl that is not positive is 0.
unfoldable pub new : ℕ → ℕ → Option Cache
new capacity ttl =
    if ttl == 0
    then none
    else (let c = if capacity == 0 then default_entries else capacity in
        some (record {
          cap = if ltb max_entries_hard c then max_entries_hard else c;
          ttl = ttl;
          ll = [];
          bytes = 0;
          next_waiter = 0;
        }))

abbrev pub is_complete : Entry → Bool
is_complete e = elim e.res [ none ↦ false | some r ↦ true ]

unfoldable pub expired : Cache → ℕ → Entry → Bool
expired c now e = ltb c.ttl (now - e.created)

-- The bytes of the recorded body, none for a stream.
abbrev pub result_bytes : Result → ℕ
result_bytes r = if r.stream then 0 else length r.body

abbrev pub body_bytes : Option Result → ℕ
body_bytes none = 0
body_bytes (some r) = result_bytes r

unfoldable pub find : String → List Entry → Option Entry
find k [] = none
find k (e ∷ l) = if str_eq e.key k then some e else find k l

-- The list without the element of a key.
unfoldable pub take_out : String → List Entry → List Entry
take_out k [] = []
take_out k (e ∷ l) = if str_eq e.key k then l else e ∷ take_out k l

-- The element of a key, written over in its place.
unfoldable pub write : Entry → List Entry → List Entry
write e' [] = []
write e' (e ∷ l) = if str_eq e.key e'.key then e' ∷ l else e ∷ write e' l

unfoldable pub wake : Entry → Result → Sent
wake e res = map (λ w. (w, res)) e.waiters

unfoldable pub remove : Cache → Entry → Cache × Sent
unfolding wake
remove c e =
    (record c { ll = take_out e.key c.ll; bytes = c.bytes - body_bytes e.res }, wake e gone_result)

-- The scan from the back of the list: the last entry that is complete or expired.
unfoldable pub evictable : Cache → ℕ → List Entry → Option Entry
evictable c now [] = none
evictable c now (e ∷ l) = elim (evictable c now l) [
  | some v ↦ some v
  | none ↦ if is_complete e || expired c now e then some e else none
]

unfoldable pub over : Cache → Bool
over c = ltb c.cap (length c.ll) || ltb total_body_budget c.bytes

-- The loop of `enforce`. Each round removes an entry, so as many rounds as entries are enough.
unfoldable pub enforce_rounds : ℕ → ℕ → Cache → Cache × Sent
enforce_rounds zero now c = (c, [])
enforce_rounds (suc n) now c = elim (over c) [
  | false ↦ (c, [])
  | true ↦ elim (evictable c now c.ll) [
    | none ↦ (c, [])
    | some v ↦
        let (c', sent) = remove c v in
        let (c'', more) = enforce_rounds n now c' in (c'', sent ++ more)
  ]
]

unfoldable pub enforce : ℕ → Cache → Cache × Sent
unfolding enforce_rounds
enforce now c = enforce_rounds (length c.ll) now c

-- A new entry at the front, for the origin of record.
unfoldable pub push_new : Cache → ℕ → String → Cache
push_new c now k = record c {
  ll = record { key = k; created = now; res = none; waiters = [] } ∷ c.ll;
}

unfoldable pub claim : Cache → ℕ → String → Cache × Decision × Sent
claim c now k = elim (find k c.ll) [
  | none ↦ (push_new c now k, miss, [])
  | some e ↦
      if expired c now e
      then (let (c', sent) = remove c e in (push_new c' now k, miss, sent))
      else (elim e.res [
        | none ↦
            let w = c.next_waiter in
            (
              record c {
                ll = write (record e { waiters = e.waiters ++ w ∷ [] }) c.ll;
                next_waiter = suc w;
              },
              wait w,
              [],
            )
        | some r ↦
            (record c { ll = e ∷ take_out k c.ll }, if r.stream then conflict else replay r, [])
      ])
]

-- An outcome that is not recorded: nothing was written, or the client of the origin hung up.
unfoldable pub unrecorded : Result → Bool
unrecorded r = r.gone || r.status == 0 || r.status == 499

-- What is recorded of an outcome: no body of a stream, nor one over the cap.
unfoldable pub recorded : Result → Result
recorded r =
    if r.stream || ltb entry_body_cap (length r.body)
    then record { status = r.status; content_type = ""; body = []; stream = true; gone = false }
    else r

-- The entry takes the result, its waiters are woken, and the caps are enforced.
unfoldable pub settle : Cache → ℕ → Entry → Result → Cache × Sent
settle c now e r =
    let res = recorded r in
    let (c', more) = enforce now (record c {
      ll = write (record e { res = some res; waiters = [] }) c.ll;
      bytes = c.bytes + result_bytes res;
    }) in
    (c', wake e res ++ more)

-- What `Finish` does with an entry that is still in flight.
unfoldable pub outcome_of : Cache → ℕ → Entry → Option Result → Cache × Sent
outcome_of c now e none = remove c e
outcome_of c now e (some r) = if unrecorded r then remove c e else settle c now e r

unfoldable pub finish : Cache → ℕ → String → Option Result → Cache × Sent
unfolding outcome_of
finish c now k res = elim (find k c.ll) [
  | none ↦ (c, [])
  | some e ↦ if is_complete e then (c, []) else outcome_of c now e res
]
