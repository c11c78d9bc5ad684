-- ===== src/Qos.antt =====
-- internal/qos: at-least-once delivery on top of the engine's history.
pub mod Window
pub mod Consumer
