-- ===== src/Stream.antt =====
-- The guards of internal/translat over the bytes of an upstream stream: Utf8 the decoding of a rune,
-- Corrupt the guard of corrupt.go, Loop the one of loop.go. A byte is a number below 256.
pub mod Utf8
pub mod Corrupt
pub mod Loop
