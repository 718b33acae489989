-- ===== src/Cmd.antt =====
-- The commands of cmd/aragorn.
pub mod Args
pub mod Usage
pub mod Main
pub mod Program
pub mod Execute
pub mod Init
pub mod Show
pub mod Serve
pub mod Aragorn
pub mod Exec
pub mod Watch
pub mod Watching
pub mod Runs
pub mod Settings
mod Tests
