-- ===== src/AgentHandler.antt =====
-- handlers/agent_handler.py: a request in natural language, from its interpretation to its answer.
pub mod Answers
pub mod Pipeline
pub mod Keeps
pub mod Confirms
pub mod Safety
pub mod Delivers
pub mod Asks
pub mod Refuses
pub mod Narrates
