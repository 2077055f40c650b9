-- ===== src/VirtualKey.antt =====
-- pkg/gateway/virtualkey: the gateway's consumer keys, their checks and their rate limits.
mod Types
pub mod Checks
pub mod Limiter
unfoldable pub use Types.*
