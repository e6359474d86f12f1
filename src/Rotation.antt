-- ===== src/Rotation.antt =====
-- operator/internal/controller/tls_rotation.go: a renewed TLS Secret, brought to the running pods.
pub mod State
pub mod Reload
pub mod Resolve
pub mod Cleanup
