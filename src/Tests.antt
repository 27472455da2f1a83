-- ===== src/Tests.antt =====
-- Concrete runs, and the theorems at concrete inputs, one module for each package.
pub mod Chunks
pub mod Interleaving
pub mod Handshakes
pub mod Controls
pub mod Commands
mod Streams
pub mod Clients
mod Stalls
mod Goroutines
mod Requests
