-- ===== src/Webhook.antt =====
-- internal/webhook: signatures, label matching and the dispatch of events.
mod Defs
pub mod Signature
pub mod Dispatching
unfoldable pub use Defs.*
