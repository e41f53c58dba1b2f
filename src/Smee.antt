-- ===== src/Smee.antt =====
-- internal/smee/client.go: the stream of events from the relay, and how the client reconnects.
mod Defs
pub mod Stream
pub mod RoundTrip
pub mod Backoff
pub mod AnyOrder
pub mod Host
pub mod Entries
pub mod Handling
unfoldable pub use Defs.*
