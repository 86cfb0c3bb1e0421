-- ===== src/Store.antt =====
-- uow.py, and what its SQLAlchemy session does for the repositories: the tables, the transaction
-- that is open on them, and the exceptions that a call may raise.
-- A session reads what is committed and what it wrote itself; each statement is one visit to the
-- database, and `world` says what the database does at the next visits: nothing else, an error, or
-- another transaction's commit.
pub mod Keeps
pub mod Atomic
pub mod WellFormed
pub mod Deletes
pub mod Returns
pub mod Claims
pub mod Queries
pub mod Rows
pub mod TaskRepository
pub mod ReminderRepository
pub mod ConfirmationRepository
mod Transaction
unfoldable pub use Transaction.*
