-- ===== src/Stream/Corrupt.antt =====
-- `CorruptGuard` of internal/translat/corrupt.go. What a read of the upstream returns is one element of
-- a list: some bytes, and the end or a failure; after the list the upstream has ended.
mod Bytes
pub mod Chunks
pub mod Whole
pub mod Delivery
pub mod Verdicts
pub use Bytes.{Scan, clean, invalid}
unfoldable pub use Bytes.{scan}
use Prim.Native.Char.{code}
use onegw.Prelude.{
  ℕ, zero, suc, ◌+◌, ◌-◌, ◌≤◌, ◌≡◌, String, Bool, true, false, not, ◌&&◌, ◌||◌, Option, none, some,
  List, [], ◌∷◌, ◌++◌, length, drop, take, ltb, leb, ◌==◌, if◌then◌else◌,
}

-- The bytes of an ASCII text.
abbrev pub codes : String → List ℕ
codes String.[] = []
codes (String.◌∷◌ c s) = code c ∷ codes s

unfoldable pub has_prefix : List ℕ → List ℕ → Bool
has_prefix [] xs = true
has_prefix (k ∷ key) [] = false
has_prefix (k ∷ key) (x ∷ xs) = let rest = has_prefix key xs in (k == x) && rest

-- `bytes.Contains`, of a key that is not empty.
unfoldable pub contains : List ℕ → List ℕ → Bool
unfolding has_prefix
contains key [] = false
contains key (x ∷ xs) = let rest = contains key xs in has_prefix key (x ∷ xs) || rest

abbrev pub content_key : List ℕ
content_key = codes "\"content\":\""

-- The byte after a content key, if it has arrived.
abbrev pub after_key : List ℕ → Option ℕ
after_key xs = elim (drop 11 xs) [ [] ↦ none | c ∷ rest ↦ some c ]

-- Whether some content key is followed by anything but a quote; the first number counts the bytes of a
-- key that was passed.
unfoldable pub content_from : ℕ → List ℕ → Bool
unfolding has_prefix
content_from skip [] = false
content_from (suc skip) (x ∷ xs) = content_from skip xs
content_from zero (x ∷ xs) =
    let next = content_from 0 xs in
    let past = content_from 10 xs in
    if has_prefix content_key (x ∷ xs)
    then (elim (after_key (x ∷ xs)) [ none ↦ false | some c ↦ if c == b'"' then past else true ])
    else next

unfoldable pub released_by_marker : List ℕ → Bool
unfolding contains content_from
released_by_marker held =
    contains (codes "\"tool_calls\"") held
    || contains (codes "\"text_delta\"") held
    || contains (codes "\"partial_json\"") held
    || content_from 0 held

pub data ReadErr : Type 0 where
  eof : ReadErr
  broken : ReadErr

-- What one read of the upstream returns.
abbrev pub Chunk : Type 0
Chunk = List ℕ × Option ReadErr

-- A verdict is the offset of the first invalid byte.
pub record CorruptGuard : Type 0 where
  pub hold : ℕ
  pub held : List ℕ
  pub carry : List ℕ
  pub scanned : ℕ
  pub verdict : Option ℕ
  pub dead : Bool
  pub err : Option ReadErr
  pub done : Bool
  pub released : Bool
  pub prefetched : Bool

unfoldable pub new_corrupt_guard : ℕ → CorruptGuard
new_corrupt_guard hold = record {
  hold = hold;
  held = [];
  carry = [];
  scanned = 0;
  verdict = none;
  dead = false;
  err = none;
  done = false;
  released = false;
  prefetched = false;
}

unfoldable pub observe : CorruptGuard → List ℕ → CorruptGuard
observe g b = if g.dead then g else elim (scan 0 (g.scanned - length g.carry) (g.carry ++ b)) [
  | clean rest ↦ record g { carry = rest; scanned = g.scanned + length b }
  | invalid at ↦ record g {
    verdict = some at;
    dead = true;
    carry = [];
    scanned = g.scanned + length b;
  }
]

-- A chunk that fills the hold window.
unfoldable pub fill : CorruptGuard → Chunk → CorruptGuard
fill g (bytes, e) =
    let g' = observe g bytes in
    let g'' = record g' { held = g'.held ++ bytes } in
    elim e [
      | none ↦ g''
      | some eof ↦ record g'' { done = true }
      | some broken ↦ record g'' { err = some broken }
    ]

abbrev pub is_none {ℓ} : {A : Type ℓ} → Option A → Bool
is_none none = true
is_none (some a) = false

-- The loop of `Prefetch`; a read after the end of the list finds the end.
unfoldable pub hold_head : CorruptGuard → List Chunk → CorruptGuard × List Chunk
unfolding fill released_by_marker
hold_head g [] =
    if is_none g.verdict then (record g { done = true; released = true }, []) else (g, [])
hold_head g (c ∷ up) =
    let g' = fill g c in
    let rest = hold_head g' up in
    if g.released || not (is_none g.verdict)
    then (g, c ∷ up)
    else if g.done || not (is_none g.err)
    then (record g { released = true }, c ∷ up)
    else if not (is_none g'.verdict)
    then (g', up)
    else if leb g.hold (length g'.held) || released_by_marker g'.held
    then (record g' { released = true }, up)
    else rest

-- `Prefetch`: a verdict that came before any byte was released.
unfoldable pub prefetch : CorruptGuard → List Chunk → CorruptGuard × List Chunk × Option ℕ
unfolding hold_head
prefetch g up =
    if g.prefetched
    then (g, up, if g.released then none else g.verdict)
    else (let p = record g { prefetched = true } in
        if g.hold == 0
        then (p, up, none)
        else (let (g', up') = hold_head p up in
            (g', up', if g'.released then none else g'.verdict)))

-- What a read returns: bytes, or an error. `corrupt` is the guard's verdict.
pub data Failure : Type 0 where
  upstream : ReadErr → Failure
  corrupt : ℕ → Failure

-- A read of the upstream that is handed on: its error waits until its bytes are read.
unfoldable pub pass_on : CorruptGuard → Chunk → CorruptGuard × List ℕ × Option Failure
pass_on g ([], none) = (g, [], none)
pass_on g ([], some e) = (g, [], some (upstream e))
pass_on g (b ∷ bs, none) = (observe g (b ∷ bs), b ∷ bs, none)
pass_on g (b ∷ bs, some e) = (record (observe g (b ∷ bs)) { err = some e }, b ∷ bs, none)

-- What follows the held bytes.
unfoldable pub relay_end :
    CorruptGuard → List Chunk → CorruptGuard × List Chunk × List ℕ × Option Failure
unfolding pass_on
relay_end g up = elim g.err [
  | some e ↦ (record g { err = none }, up, [], some (upstream e))
  | none ↦ if g.done then (g, up, [], some (upstream eof)) else elim up [
    | [] ↦ (g, [], [], some (upstream eof))
    | c ∷ rest ↦ let (g', bytes, f) = pass_on g c in (g', rest, bytes, f)
  ]
]

-- A read after the prefetch: what is held, or what the upstream gives.
unfoldable pub relay :
    CorruptGuard → List Chunk → ℕ → CorruptGuard × List Chunk × List ℕ × Option Failure
unfolding relay_end
relay g up n = elim g.held [
  | b ∷ bs ↦ (record g { held = drop n g.held }, up, take n g.held, none)
  | [] ↦ relay_end g up
]

unfoldable pub read :
    CorruptGuard → List Chunk → ℕ → CorruptGuard × List Chunk × List ℕ × Option Failure
unfolding prefetch relay
read g up n =
    let (g', up', v) = prefetch g up in
    if g.prefetched
    then relay g up n
    else elim v [ some at ↦ (g', up', [], some (corrupt at)) | none ↦ relay g' up' n ]
