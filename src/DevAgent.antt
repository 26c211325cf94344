-- ===== src/DevAgent.antt =====
-- The agent for a host, with objects of its own: tools/dev_agent/dev_agent.c.
pub mod Types
pub mod Scalars
pub mod Interfaces
pub mod Sensors
pub mod Agent
pub mod Rows
pub mod Valid
pub mod Served
pub mod Volatile
pub mod Runs
