-- ===== src/Policy/Serving.antt =====
-- No order of requests and completions lets a key pass its request limit in server/policy.go.
use onegw.Prelude.{
  ℕ, ◌≤◌, ◌≡◌, sym, subst, ◌≢◌, ◌⊎◌, inl, inr, false, String, some, List, [], ◌∷◌, arith,
  if◌then◌else◌, str_eq, eq_iff, Bool-cases,
}
use native.Mathlib.Nat.{le_refl}
use onegw.Prelude.Assoc.{lookup}
use onegw.RateLimit.{Limiter}
use onegw.RateLimit.Log.{Log, recent, recent_antitone}
use onegw.RateLimit.Entries.{Tracks, entry, Tracks-later, new_entry-Tracks}
use onegw.Policy.{
  AuthKey, Verdict, pass, too_many_tokens, too_many_requests, enforce_rate_limits, observe_usage,
}
use onegw.Policy.Limits.{Judged, counted, enforce_lem, observe_usage_lem}

-- What reaches the limiter, in the order of its lock: a request, or a completed request's tokens.
pub data Call : Type 0 where
  request : ℕ → AuthKey → Call
  complete : ℕ → AuthKey → ℕ → Call

abbrev pub call_time : Call → ℕ
call_time (request now ak) = now
call_time (complete now ak tokens) = now

-- The limiter after the calls, and the log of the key's requests that were let through.
unfoldable pub serve : String → Limiter → Log → List Call → Limiter × Log
serve key l log [] = (l, log)
serve key l log (request now ak ∷ calls) =
    let (l', v) = enforce_rate_limits l now (some ak) in
    serve key l' (if str_eq ak.key key then counted now ak v log else log) calls
serve key l log (complete now ak tokens ∷ calls) =
    serve key (observe_usage l now (some ak) tokens) log calls

-- The calls come in the order of the clock, and the key's requests carry one limit.
abbrev pub InOrder : String → ℕ → ℕ → List Call → Type 0
InOrder key rpm t [] = Unit {0}
InOrder key rpm t (request now ak ∷ calls) =
    (t ≤ now) × ((str_eq ak.key key ≡ false) ⊎ (ak.rpm ≡ rpm)) × InOrder key rpm now calls
InOrder key rpm t (complete now ak tokens ∷ calls) = (t ≤ now) × InOrder key rpm now calls

-- Every key has some logs behind its entry.
abbrev Known : ℕ → Limiter → Type 0
Known t l = (key : String) → (reqs : Log) × (toks : Log) × Tracks t reqs toks (entry l key)

-- The log of one key, with its limit.
abbrev Bounded : ℕ → ℕ → Limiter → String → Log → Type 0
Bounded t rpm l key log =
    ((toks : Log) × Tracks t log toks (entry l key)) × ((n : ℕ) → t ≤ n → recent n log ≤ rpm)

request-Known :
    (t : ℕ) (l : Limiter) (now : ℕ) (ak : AuthKey)
    → Known t l
    → t ≤ now
    → Known now (enforce_rate_limits l now (some ak)).0
request-Known t l now ak known h key =
    let (reqs, toks, k) = known ak.key in
    let a = enforce_lem t ak reqs toks l now k h in
    let (l', v) = enforce_rate_limits l now (some ak) in
    elim (Bool-cases (str_eq ak.key key)) [
      | inl e ↦ (
        counted now ak v reqs,
        toks,
        subst (λ s. Tracks now (counted now ak v reqs) toks (entry l' s)) ((eq_iff ak.key key).0 e)
            a.1,
      )
      | inr ne ↦
          let (reqs', toks', k') = known key in
          (reqs', toks', rw (a.2 key ne) (Tracks-later t reqs' toks' l key now k' h))
    ]

complete-Known :
    (t : ℕ) (l : Limiter) (now : ℕ) (ak : AuthKey) (tokens : ℕ)
    → Known t l
    → t ≤ now
    → Known now (observe_usage l now (some ak) tokens)
complete-Known t l now ak tokens known h key =
    let (reqs, toks, k) = known ak.key in
    let a = observe_usage_lem t ak reqs toks l now k h tokens in
    elim (Bool-cases (str_eq ak.key key)) [
      | inl e ↦ (
        reqs,
        a.0.0,
        subst (λ s. Tracks now reqs a.0.0 (entry (observe_usage l now (some ak) tokens) s))
            ((eq_iff ak.key key).0 e) a.0.1,
      )
      | inr ne ↦
          let (reqs', toks', k') = known key in
          (reqs', toks', rw (a.1 key ne) (Tracks-later t reqs' toks' l key now k' h))
    ]

counted-bound :
    (t now rpm : ℕ) (ak : AuthKey) (log toks : Log) (v : Verdict)
    → t ≤ now
    → ak.rpm ≡ rpm
    → rpm ≢ 0
    → Judged now ak log toks v
    → ((n : ℕ) → t ≤ n → recent n log ≤ rpm)
    → (n : ℕ) → now ≤ n
    → recent n (counted now ak v log) ≤ rpm
unfolding recent
counted-bound t now rpm ak log toks pass h e on j b n le =
    ground (arith, b n, recent_antitone now n log le)
counted-bound t now rpm ak log toks (too_many_tokens r) h e on j b n le = b n (omega arith)
counted-bound t now rpm ak log toks (too_many_requests r) h e on j b n le = b n (omega arith)

request-Bounded :
    (t rpm : ℕ) (l : Limiter) (key : String) (log : Log) (now : ℕ) (ak : AuthKey)
    → rpm ≢ 0
    → t ≤ now
    → (str_eq ak.key key ≡ false) ⊎ (ak.rpm ≡ rpm)
    → Bounded t rpm l key log
    → let (l', v) = enforce_rate_limits l now (some ak) in
      Known t l → Bounded now rpm l' key (if str_eq ak.key key then counted now ak v log else log)
request-Bounded t rpm l key log now ak on h same b known =
    let (l', v) = enforce_rate_limits l now (some ak) in
    elim (Bool-cases (str_eq ak.key key)) [
      | inl e ↦
          let p = (eq_iff ak.key key).0 e in
          let k = subst (λ s. Tracks t log b.0.0 (entry l s)) (sym p) b.0.1 in
          let a = enforce_lem t ak log b.0.0 l now k h in
          rw e (
            (b.0.0, subst (λ s. Tracks now (counted now ak v log) b.0.0 (entry l' s)) p a.1),
            counted-bound t now rpm ak log b.0.0 v h (ground (arith, same, e)) on a.0 b.1,
          )
      | inr ne ↦
          let (reqs, toks, k) = known ak.key in
          let a = enforce_lem t ak reqs toks l now k h in
          rw ne (
            (b.0.0, rw (a.2 key ne) (Tracks-later t log b.0.0 l key now b.0.1 h)),
            λ n le. b.1 n (omega arith),
          )
    ]

complete-Bounded :
    (t rpm : ℕ) (l : Limiter) (key : String) (log : Log) (now : ℕ) (ak : AuthKey) (tokens : ℕ)
    → t ≤ now
    → Known t l
    → Bounded t rpm l key log
    → Bounded now rpm (observe_usage l now (some ak) tokens) key log
complete-Bounded t rpm l key log now ak tokens h known b =
    let l' = observe_usage l now (some ak) tokens in
    elim (Bool-cases (str_eq ak.key key)) [
      | inl e ↦
          let p = (eq_iff ak.key key).0 e in
          let k = subst (λ s. Tracks t log b.0.0 (entry l s)) (sym p) b.0.1 in
          let a = observe_usage_lem t ak log b.0.0 l now k h tokens in
          (
            (a.0.0, subst (λ s. Tracks now log a.0.0 (entry l' s)) p a.0.1),
            λ n le. b.1 n (omega arith),
          )
      | inr ne ↦
          let (reqs, toks, k) = known ak.key in
          let a = observe_usage_lem t ak reqs toks l now k h tokens in
          (
            (b.0.0, rw (a.1 key ne) (Tracks-later t log b.0.0 l key now b.0.1 h)),
            λ n le. b.1 n (omega arith),
          )
    ]

-- The time of the last call.
abbrev pub end_time : ℕ → List Call → ℕ
end_time t [] = t
end_time t (c ∷ calls) = end_time (call_time c) calls

serve-Bounded :
    (key : String) (rpm : ℕ) (t : ℕ) (l : Limiter) (log : Log) (calls : List Call)
    → rpm ≢ 0
    → Known t l
    → Bounded t rpm l key log
    → InOrder key rpm t calls
    → Bounded (end_time t calls) rpm (serve key l log calls).0 key (serve key l log calls).1
unfolding serve
serve-Bounded key rpm t l log [] on known b o = b
serve-Bounded key rpm t l log (request now ak ∷ calls) on known b o =
    serve-Bounded key rpm now (enforce_rate_limits l now (some ak)).0
      (if str_eq ak.key key
        then counted now ak (enforce_rate_limits l now (some ak)).1 log
        else log)
      calls on (request-Known t l now ak known o.0)
      (request-Bounded t rpm l key log now ak on o.0 o.1 b known) o.2
serve-Bounded key rpm t l log (complete now ak tokens ∷ calls) on known b o =
    serve-Bounded key rpm now (observe_usage l now (some ak) tokens) log calls on
      (complete-Known t l now ak tokens known o.0)
      (complete-Bounded t rpm l key log now ak tokens o.0 known b) o.1

empty-Tracks : (key : String) → Tracks 0 [] [] (entry [] key)
unfolding entry lookup
empty-Tracks key = new_entry-Tracks

-- From an empty limiter, whatever is called in the order of the clock and by whatever keys, the
-- requests of a key that were let through in the last sixty seconds are at most its limit.
pub serve_within :
    (key : String) (rpm : ℕ) (calls : List Call)
    → rpm ≢ 0
    → InOrder key rpm 0 calls
    → recent (end_time 0 calls) (serve key [] [] calls).1 ≤ rpm
serve_within key rpm calls on o =
    (serve-Bounded key rpm 0 [] [] calls on (λ k. ([], [], empty-Tracks k))
        (([], empty-Tracks key), λ n le. unfold recent in omega arith) o).1
      (end_time 0 calls) (le_refl (end_time 0 calls))
