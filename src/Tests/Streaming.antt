-- ===== src/Tests/Streaming.antt =====
-- A stream of three chunks, with an invalid byte in the last, and a loop of one line.
use onegw.Prelude.{ℕ, ◌≡◌, refl, true, false, none, some, List, [], ◌∷◌, ◌++◌, replicate}
use onegw.Stream.Utf8.{width, second_fits, rune_size, all_cont, needed, incomplete_rune}
use onegw.Stream.Corrupt.{
  Chunk, ReadErr, Failure, new_corrupt_guard, observe, fill, hold_head, prefetch, read, scan,
  has_prefix, contains, content_from, released_by_marker,
}
use onegw.Stream.Corrupt.Whole.{observe_all, joined, observe_all-joined}
use onegw.Stream.Corrupt.Delivery.{pending, reads, reads-pending, read-corrupt}
use onegw.Stream.Loop.{
  LoopBreaker, new_loop_breaker, last_newline, split, add_lines, try_trip, watch,
}
use onegw.Stream.Loop.Lines.{lines_from, kept, weight}
use onegw.Stream.Loop.Chunks.{watch_all, whole, watch_all-lines}

-- "hé", cut inside the second character, then "a" and a byte that begins no character.
abbrev cut_bytes : List (List ℕ)
cut_bytes = (0x68 ∷ 0xC3 ∷ []) ∷ (0xA9 ∷ []) ∷ (0x61 ∷ 0xFF ∷ 0x62 ∷ []) ∷ []

abbrev upstream : List Chunk
upstream =
    (0x68 ∷ 0xC3 ∷ [], none) ∷ (0xA9 ∷ [], none) ∷ (0x61 ∷ 0xFF ∷ 0x62 ∷ [], some ReadErr.eof) ∷ []

upstream_answer : (read (new_corrupt_guard 64) upstream 16).3 ≡ some (Failure.corrupt 4)
unfolding read prefetch hold_head fill observe scan rune_size incomplete_rune width second_fits
    needed all_cont new_corrupt_guard released_by_marker contains has_prefix content_from
upstream_answer = refl

marker_released :
    released_by_marker
      (0x22 ∷ 0x63 ∷ 0x6F ∷ 0x6E ∷ 0x74 ∷ 0x65 ∷ 0x6E ∷ 0x74 ∷ 0x22 ∷ 0x3A ∷ 0x22 ∷ 0x78 ∷ [])
    ≡ true
unfolding released_by_marker contains has_prefix content_from
marker_released = refl

empty_content_held :
    released_by_marker
      (0x22 ∷ 0x63 ∷ 0x6F ∷ 0x6E ∷ 0x74 ∷ 0x65 ∷ 0x6E ∷ 0x74 ∷ 0x22 ∷ 0x3A ∷ 0x22 ∷ 0x22 ∷ [])
    ≡ false
unfolding released_by_marker contains has_prefix content_from
empty_content_held = refl

observe_all-joined_example :
    let g = new_corrupt_guard 64 in
    let cut = observe_all g cut_bytes in
    let seen = observe g (joined cut_bytes) in
    (cut.verdict ≡ seen.verdict) × (cut.carry ≡ seen.carry) × (cut.dead ≡ seen.dead)
observe_all-joined_example = observe_all-joined 64 cut_bytes

reads-pending_example :
    let r = reads (new_corrupt_guard 4) upstream (1 ∷ 3 ∷ 16 ∷ []) in
    r.2 ++ pending (r.0) (r.1) ≡ pending (new_corrupt_guard 4) upstream
reads-pending_example = reads-pending (new_corrupt_guard 4) upstream (1 ∷ 3 ∷ 16 ∷ [])

read-corrupt_example :
    let g = new_corrupt_guard 64 in
    let r = read g upstream 16 in
    (g.prefetched ≡ false)
    × ((prefetch g upstream).2 ≡ some 4)
    × (r.2 ≡ [])
    × (pending (r.0) (r.1) ≡ pending g upstream)
read-corrupt_example = read-corrupt (new_corrupt_guard 64) upstream 16 4 upstream_answer

abbrev line_chunks : List (List ℕ)
line_chunks = (0x61 ∷ 0x62 ∷ []) ∷ (0x63 ∷ 10 ∷ 10 ∷ 0x64 ∷ []) ∷ (10 ∷ 0x65 ∷ []) ∷ []

line_chunks_quiet : (watch_all new_loop_breaker line_chunks).looped ≡ false
unfolding new_loop_breaker watch last_newline split add_lines try_trip
line_chunks_quiet = refl

watch_all-lines_example :
    let b = watch_all new_loop_breaker line_chunks in
    let (ls, rest) = lines_from [] (whole line_chunks) in
    (b.lines ≡ kept ls) × (b.bytes ≡ weight (kept ls)) × (b.pending ≡ rest)
watch_all-lines_example = watch_all-lines line_chunks line_chunks_quiet

-- 128 lines that are all the same.
abbrev repeating : LoopBreaker
repeating = record {
  pending = [];
  lines = replicate 128 (replicate 70 0x61);
  bytes = 9088;
  looped = false;
}
