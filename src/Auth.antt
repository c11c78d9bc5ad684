-- ===== src/Auth.antt =====
-- internal/auth/auth.go: what a verified token grants, and the checks that a token passes.
pub mod Claims
pub mod Grants
pub mod Verify
