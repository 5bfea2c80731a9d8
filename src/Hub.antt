-- ===== src/Hub.antt =====
-- internal/hub: sections, clients and streaming reads.
mod Examples
pub mod Commands
pub mod Extraction
pub mod Message
pub mod Reads
pub mod Run
pub mod Section
pub mod Sections
pub mod State
pub mod Streaming
pub mod SpanTracker
