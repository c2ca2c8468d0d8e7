-- ===== src/RateLimit/Entries.antt =====
-- The methods of ratelimit.go against two logs for each key, that of its requests and that of its
-- tokens.
use onegw.Prelude.{
  ℕ, zero, suc, ◌%◌, ◌≤◌, ◌<◌, ◌≡◌, refl, ◌≢◌, true, false, String, none, some, List, [], ◌∷◌,
  arith, if◌then◌else◌, length, ◌∙◌, inl, replicate, str_eq, eq_iff,
}
use onegw.Prelude.Assoc.{lookup, insert, lookup-insert}
use onegw.RateLimit.{
  Bucket, Entry, add_bucket, Limiter, new_entry, empty_bucket, get, sum_at, add, retry_after,
  allow_rpm, window_seconds,
}
use onegw.RateLimit.Log.{Log, recent, share}
use onegw.RateLimit.Window.{
  Models, sum_at-Models, sum_at-recent, add-Models, length-sum_from, length-add, Models-later,
}

-- A key with no entry reads as one whose buckets are empty.
unfoldable pub entry : Limiter → String → Entry
entry l key = elim (lookup key l) [ some e ↦ e | none ↦ new_entry ]

pub record Tracks (t : ℕ) (reqs toks : Log) (e : Entry) : Type 0 where
  pub req_models : Models t reqs 0 e.req
  pub req_length : length e.req ≡ window_seconds
  pub tok_models : Models t toks 0 e.tok
  pub tok_length : length e.tok ≡ window_seconds

empty-Models : (i n : ℕ) → Models 0 [] i (replicate n empty_bucket)
empty-Models i zero = tt
empty-Models i (suc n) = (
  record {
    seen = omega arith;
    placed = inl refl;
    counted_after = λ d. unfold share in ground arith;
  },
  empty-Models (suc i) n,
)

pub new_entry-Tracks : Tracks 0 [] [] new_entry
new_entry-Tracks = record {
  req_models = empty-Models 0 60;
  req_length = refl;
  tok_models = empty-Models 0 60;
  tok_length = refl;
}

pub entry-insert :
    (l : Limiter) (key other : String) (e : Entry)
    → entry (insert key e l) other ≡ (if str_eq key other then e else entry l other)
unfolding entry
entry-insert l key other e = ground (arith, lookup-insert key other e l)

pub get-entry : (l : Limiter) (key : String) → (get l key).1 ≡ entry l key
unfolding get entry
get-entry l key = ground arith

pub entry-get :
    (l : Limiter) (key other : String)
    → str_eq key other ≡ false
    → entry (get l key).0 other ≡ entry l other
unfolding get entry
entry-get l key other h = ground (arith, lookup-insert key other new_entry l)

pub str_eq_self : (k : String) → str_eq k k ≡ true
str_eq_self k = (eq_iff k k).1 refl

-- The keys that an operation on `key` leaves alone.
abbrev pub SameOthers : String → Limiter → Limiter → Type 0
SameOthers key l l' = (other : String) → str_eq key other ≡ false → entry l' other ≡ entry l other

module _ (t : ℕ) (reqs toks : Log) (l : Limiter) (key : String) (now : ℕ)
    (k : Tracks t reqs toks (entry l key)) (h : t ≤ now) where
  with_req :
      {log : Log} {w : List Bucket}
      → Models now log 0 w
      → length w ≡ window_seconds
      → Tracks now log toks (record (entry l key) { req = w })
  with_req m e = record {
    req_models = m;
    req_length = e;
    tok_models = Models-later t toks 0 (entry l key).tok now k.tok_models h;
    tok_length = k.tok_length;
  }

  pub with_tok :
      {log : Log} {w : List Bucket}
      → Models now log 0 w
      → length w ≡ window_seconds
      → Tracks now reqs log (record (entry l key) { tok = w })
  with_tok m e = record {
    req_models = Models-later t reqs 0 (entry l key).req now k.req_models h;
    req_length = k.req_length;
    tok_models = m;
    tok_length = e;
  }

  pub req-recent : (sum_at (entry l key).req now).1 ≡ recent now reqs
  req-recent = sum_at-recent t reqs (entry l key).req now k.req_models h k.req_length

  pub tok-recent : (sum_at (entry l key).tok now).1 ≡ recent now toks
  tok-recent = sum_at-recent t toks (entry l key).tok now k.tok_models h k.tok_length

  pub Tracks-later : Tracks now reqs toks (entry l key)
  Tracks-later = with_req (Models-later t reqs 0 (entry l key).req now k.req_models h) k.req_length

  -- What `AllowRPM` leaves in the key's entry.
  module _ (rpm : ℕ) (limited : rpm ≢ 0) where
    pub denied :
        rpm ≤ recent now reqs
        → (allow_rpm l now key rpm ≡ (
          insert key
              (record (entry l key) { req = (sum_at (entry l key).req now).0 })
              (get l key).0,
          false,
          retry_after (sum_at (entry l key).req now).2 now,
        ))
          × Tracks now reqs toks (record (entry l key) { req = (sum_at (entry l key).req now).0 })
    unfolding allow_rpm
    denied full = (
      ground (arith, get-entry l key, req-recent),
      with_req (sum_at-Models t reqs (entry l key).req now k.req_models h)
          (unfold sum_at in length-sum_from now (entry l key).req 0 0 ∙ k.req_length),
    )

    pub granted :
        recent now reqs < rpm
        → (w : List Bucket) × (allow_rpm l now key rpm
            ≡ (insert key (record (entry l key) { req = w }) (get l key).0, true, 0))
          × Tracks now ((now, 1) ∷ reqs) toks (record (entry l key) { req = w })
    unfolding allow_rpm
    granted room =
        let w0 = (sum_at (entry l key).req now).0 in
        (
          add w0 now 1,
          ground (arith, get-entry l key, req-recent),
          with_req
              (add-Models now reqs w0 now
                (sum_at-Models t reqs (entry l key).req now k.req_models h) (omega arith) 1)
              (unfold sum_at add in
                length-add w0 (now % window_seconds) (λ b. add_bucket b now 1)
                ∙ (length-sum_from now (entry l key).req 0 0 ∙ k.req_length)),
        )
