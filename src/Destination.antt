-- ===== src/Destination.antt =====
-- The Destination side, `src/airgap_sync/destination/`: the validation of incoming runs.
pub mod Database
pub mod Processor
pub mod Ddl
pub mod Incoming
pub mod Discovery
mod Tests
mod Sample
mod ProcessTests
