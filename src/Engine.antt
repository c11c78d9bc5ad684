-- ===== src/Engine.antt =====
-- internal/engine: channels, their history, and who gets a publication.
pub mod History
pub mod Subscriptions
pub mod Channel
pub mod Patterns
pub mod State
pub mod Members
pub mod Fanout
pub mod Publish
pub mod Run
pub mod Sweeper
