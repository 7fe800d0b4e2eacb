-- ===== src/Common.antt =====
-- What both sides share, `src/airgap_sync/common/`: the multiset digest (Verification), the manifest
-- (Manifest) and the names at the relay (Transport).
pub mod Verification
pub mod RowCodec
pub mod Manifest
pub mod Transport
mod Tests
