-- ===== src/Source.antt =====
-- The Source side, `src/airgap_sync/source/`: its state database (Schema, Runs, Artifacts, Cycles,
-- Recovery, Transitions, Migrations), the runner of a cycle and its worker (CycleRunner, Worker), the
-- snapshot (ChunkWriter, Scanner, Snapshot), the uploader (Uploader), and concrete runs of them.
pub mod Schema
pub mod Runs
pub mod Artifacts
pub mod Cycles
pub mod Recovery
pub mod CycleRunner
pub mod ChunkWriter
pub mod Scanner
pub mod Transitions
pub mod Uploader
pub mod Snapshot
pub mod Worker
pub mod Migrations
mod Tests
mod UploadTests
mod WorkerTests
mod RunTests
