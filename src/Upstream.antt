-- ===== src/Upstream.antt =====
-- pkg/prepare/cache: which hashes an upstream cache holds.
pub mod Calls
pub mod Group
