-- ===== src/Agent.antt =====
-- internal/agent: of the wiring, the decisions on how the agent can be reached.
pub mod Reachability
mod Tests
