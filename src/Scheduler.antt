-- ===== src/Scheduler.antt =====
-- pkg/credential: the credentials that the gateway schedules, and how one is selected.
pub mod Credential
pub mod Selector
pub mod Shard
pub mod Mark
pub mod Scopes
