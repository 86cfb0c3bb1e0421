-- ===== src/ActionExecutor.antt =====
-- services/action_executor.py: from an authorized command to a use case of the modules.
pub mod Command
pub mod Changes
pub mod Dispatch
pub mod Execute
pub mod Fails
pub mod Keeps
pub mod Runs
pub mod Ranges
pub mod Unchanged
