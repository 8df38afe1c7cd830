-- ===== src/Tests.antt =====
-- The runs on fixed inputs: a deployment to run, and the theorems of each part applied to it.
pub mod Fixtures
pub mod Codec
mod CoreRuns
mod IdentityRuns
mod GateRuns
mod StoreRuns
mod ChannelRuns
mod RoleRuns
mod GateLedgerRuns
mod RevocationRuns
mod LedgerRuns
mod QueueRuns
mod RestRuns
