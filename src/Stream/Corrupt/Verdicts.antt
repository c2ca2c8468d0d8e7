-- ===== src/Stream/Corrupt/Verdicts.antt =====
-- The verdict of corrupt.go's `Prefetch` and what it says of the whole stream.
use onegw.Prelude.{List}
use onegw.Stream.Corrupt.{CorruptGuard, Chunk}
use onegw.Stream.Corrupt.Whole.{Saw}

-- A guard that has released nothing saw what it holds.
abbrev Held : CorruptGuard → Type 0
Held g = Saw g g.held

abbrev Kept : CorruptGuard × List Chunk → Type 0
Kept (g, up) = Held g
