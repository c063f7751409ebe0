-- ===== src/Push.antt =====
-- pkg/push: uploading the prepared files of a closure, and indexing what is complete.
pub mod Tasks
pub mod Complete
pub mod Upload
pub mod Prepared
pub mod Run
pub mod Args
