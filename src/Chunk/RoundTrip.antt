-- ===== src/Chunk/RoundTrip.antt =====
-- The writer and the reader together: one chunk, a run of chunks, and what they do not agree on; and
-- the reader behind a peer that interleaves chunks.
pub mod Single
pub mod Sequence
pub mod ChunkSize
pub mod Limits
pub mod Interleaved
