-- ===== src/Namespace.antt =====
-- internal/namespace/namespace.go: settings for classes of channels, chosen by name prefix.
pub mod Settings
pub mod Name
pub mod Registry
pub mod Config
