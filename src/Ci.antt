-- ===== src/Ci.antt =====
-- internal/ci: the runner that builds the outputs of a flake and pushes them to caches.
pub mod Outputs
pub mod Changed
pub mod Settings
pub mod Builds
pub mod Run
pub mod SigningKey
