-- ===== src/Lib.antt =====
-- A model of onegw, a gateway in front of language-model providers, as a library of functions with
-- the theorems that make its core correct.
--
-- A client's request passes the limits of its key (internal/server/policy.go over
-- internal/ratelimit), a cache of settled requests that joins retries to their origin
-- (internal/idempotency), and the router, which resolves the model string to an ordered list of
-- targets and orders a combo's targets by the task or by a sticky round robin (internal/router). The
-- provider of a target hands out one of its accounts by what the upstream answered so far
-- (internal/provider): an error is classified (internal/types) and charged to an account, to a model or
-- to the whole provider, and a relayed stream passes guards that can call it off (internal/translat).
-- Buffered work waits for memory (internal/server/sem.go).
--
-- The files and the code they model:
--   RateLimit.antt   internal/ratelimit/ratelimit.go. A window is the list of its sixty buckets; a
--                    method takes the time and returns the limiter and its answer. RateLimit/Log
--                    gives the abstract view, a log of events; Window, Retry, Entries and Runs
--                    relate `sumAt`, `add` and the methods to it.
--   Policy.antt      internal/server/policy.go: `enforceRateLimits`, `observeTPM`, `modelAllowed`.
--   Idempotency.antt internal/idempotency/idempotency.go: `Claim`, `Finish` and eviction; a message
--                    to a waiter is part of the result. Store, Invariant, Claims, Replay, Delivery
--                    and Runs hold the proofs.
--   Task.antt        internal/router/task.go and internal/provider/tier.go: `Classify`,
--                    `scoreTarget`, `reorderByTask`, `applyTaskRouting`.
--   Router.antt      internal/router/router.go: `Resolve`, `KnownModel`; Router/Tables the setters,
--                    Router/RoundRobin the sticky rotation.
--   Pool.antt        the account pool of internal/provider/provider.go. Pool/Faults the verdicts of the
--                    upstream on a slot, Pool/Next the choice of a slot for a request with its parts in
--                    Runs, Pins, Pick and Bucket; Recency, Parole, Sync, Chosen, Granted, Served,
--                    Spending, Bounded and Walls hold the proofs.
--   Bench.antt       the benches of a model in internal/provider/provider.go, with Bench/Verdicts.
--   Execute.antt     the loops of `Execute` in internal/router/router.go; Execute/Attempts and
--                    Execute/Fallback hold the proofs.
--   Evaluator.antt   the verdict of an evaluator in internal/router/router.go; Evaluator/Closest the proofs.
--   Quota.antt       internal/quota/quota.go: the windows and what is counted in them; Quota/Calendar
--                    (days, months and years), Quota/Months (the monthly windows), Quota/Grids, Settled,
--                    Counts and Inherited hold the proofs.
--   Update.antt      the version order of internal/update/update.go; Update/Signs, Prereleases and Order
--                    hold the proofs.
--   Budget.antt      internal/server/sem.go: the memory budget; Budget/Steps the books of every run.
--   Errors.antt      internal/types/types.go: the error of the gateway and its classes; Errors/Texts the
--                    words and patterns they look for, Errors/Window the window a message names, and
--                    Errors/Classes the error as `Execute` reads it.
--   Upstream.antt    the part of `do` in internal/provider/provider.go that follows a call: which account,
--                    model or breaker an answer is charged to, with internal/translat/util.go.
--                    Upstream/Blame, Faults, Walls and Shared hold the proofs.
--   Stream.antt      the guards of a relayed stream: Stream/Corrupt is internal/translat/corrupt.go (Chunks,
--                    Whole, Delivery and Verdicts hold the proofs), Stream/Loop internal/translat/loop.go
--                    (Lines, Chunks and Window hold the proofs).
--   Prelude.antt     shared names, maps as association lists (Assoc), case mappings (Text) and
--                    signed numbers (Int). Tests.antt: each theorem at a concrete input.
--
-- How the code is read. Each method holds one lock from its first read to its last write, so it is a
-- function on the state behind the lock, and a run is a list of calls in the order of the lock. Go
-- maps are association lists. Instants are numbers (seconds in the limiter, nanoseconds elsewhere), and
-- a difference of instants that would be negative is 0, which the tests of the code treat alike. A
-- limit or duration that the code treats as absent when it is not positive is 0 there. Counters are
-- numbers without a width: the request window counts at most its limit, the bytes of the cache stay
-- near its budget, and the token window sums what 2^63 tokens in a minute would be needed to overflow.
-- Strings are texts; `strings.ToLower` and `strings.EqualFold` are character maps over two Unicode
-- tables, which are parameters, and `path.Match` is a parameter too.
--
-- Loops. `enforce` takes as many rounds as there are entries; each round removes one, so the loop ends
-- by its test or because nothing may be removed. The alias loop has the eight hops of the code. All
-- other loops recur on a list; the attempts of `Execute` recur on the answers, one for each round, and
-- a request whose answers are used up is pending.
--
-- Streams. A stream is the list of what the reads of its upstream return, and bytes are numbers. The
-- decoder of UTF-8 is written out for what the guard reads of it, the size of the rune at the head of some
-- bytes. Regular expressions that ignore case are functions over the folding table; a duration that Go
-- computes in 64 bits wraps around. What `time.ParseDuration` and the parser of HTTP dates read is a
-- parameter, and one reading of the clock stands for those that `do` makes after a call.
--
-- Floats. The request budgets of an account are counted exactly, in units of 1 / (60 * 10^9) of a
-- request, where the code has a float; of the measured decode speeds only the order is read, so a speed
-- is a number; the score of the strategy "p2c" is a comparison that is an argument, and so is whatever
-- is drawn at random.
--
-- Not modelled: the network, HTTP, JSON and TOML, the translation between formats, the savers, the
-- admin pages, OAuth, the database, and the averages behind the measured speeds.
pub mod Prelude
pub mod RateLimit
pub mod Policy
pub mod Idempotency
pub mod Task
pub mod Router
pub mod Pool
pub mod Bench
pub mod Budget
pub mod Execute
pub mod Stream
pub mod Evaluator
pub mod Quota
pub mod Errors
pub mod Update
pub mod Upstream
mod Tests
