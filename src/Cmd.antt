-- ===== src/Cmd.antt =====
-- The parts of the command line that decide what the packages are called with.
pub mod Config
pub mod Installable
pub mod Configure
pub mod Shared
