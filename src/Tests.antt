-- ===== src/Tests.antt =====
-- The theorems applied to concrete tables, and runs of the model on them.
mod Data
mod Scheduling
mod Confirming
mod Writing
mod Planning
mod Deciding
mod Dates
mod Agent
mod Http
