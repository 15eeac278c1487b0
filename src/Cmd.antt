-- ===== src/Cmd.antt =====
-- The command lines of the two plugins: cmd/preflight/cmd and cmd/log-collector/cmd.
pub mod Pairs
pub mod Gvks
pub mod CollectInputs
pub mod PreflightInputs
pub mod Process
pub mod PreflightCommands
pub mod CollectCommand
