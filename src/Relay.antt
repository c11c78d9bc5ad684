-- ===== src/Relay.antt =====
-- The relay (internal/relay): where a publication of a channel goes.
pub mod Router
pub mod Dedup
