-- ===== src/Tests.antt =====
-- Runs of the models at concrete inputs, and the theorems applied to them.
mod Routing
mod Keys
mod Agents
mod Credentials
mod Scheduling
mod Failover
mod Backing
