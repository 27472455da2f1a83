-- ===== src/Chunk.antt =====
-- The package `chunk`: headers, the chunks they head, and the reader, writer and parser of chunks.
pub mod BasicHeader
pub mod MessageHeader
pub mod ExtendedTimestamp
pub mod Header
pub mod Chunk
pub mod Normalizer
pub mod Builder
pub mod Writer
pub mod Reader
pub mod Parser
pub mod MultiStream
pub mod RoundTrip
pub mod Flow
pub mod Goroutines
