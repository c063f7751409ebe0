-- ===== src/Prepare.antt =====
-- pkg/prepare: from store paths to the NAR and narinfo files of a closure.
pub mod Tree
pub mod Store
pub mod Refs
pub mod Batch
pub mod Write
