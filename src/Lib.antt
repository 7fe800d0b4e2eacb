-- ===== src/Lib.antt =====
-- airgap-sync moves full snapshots of MySQL tables across an air gap. The Source side scans a table
-- into compressed chunk files with a manifest and uploads them through a relay; the Destination side
-- validates the files, imports them, verifies the digest of the rows, and swaps the new table in.
-- This library models the core of the Source side, the data that both sides share, and the
-- Destination side from the validation of a run to its promotion.
--
-- Files and code:
-- - Base: what the other files share. Base/Exec has calls that change a state and may raise, and the
--   transaction of `SourceState._transaction` in src/airgap_sync/source/state.py; Base/Rows has the
--   rows of a database table, with UPDATE, COUNT, SELECT and EXISTS.
-- - Common/Verification: the multiset digest of src/airgap_sync/common/verification.py.
--   Common/Manifest: the records of src/airgap_sync/common/manifest.py and `chunk_filename`.
-- - Source/Schema, Runs, Artifacts, Cycles, Recovery: the state database, `SourceState` in
--   src/airgap_sync/source/state.py, one function for each method, with the method's name.
--   Source/Transitions: these methods as the steps of one state machine.
-- - Source/CycleRunner: `CycleRunner` in src/airgap_sync/source/cycle.py.
-- - Source/ChunkWriter and Source/Scanner: src/airgap_sync/source/chunk_writer.py and
--   src/airgap_sync/source/scanner.py. Source/Snapshot: `SnapshotRunner` in
--   src/airgap_sync/source/snapshot.py. Source/Uploader: `RelayUploader.upload` in
--   src/airgap_sync/source/uploader.py. Source/Worker: `next_action_at`, `SourceWorker.tick` and
--   `cleanup_failed_runs` in src/airgap_sync/source/cycle.py. Source/Migrations: `initialize` of
--   `SourceState`, statement by statement on the tables of the file.
-- - Common/RowCodec: `encode_row` and `decode_row` in src/airgap_sync/common/row_codec.py.
-- - Common/Transport: `transport_filename` in src/airgap_sync/common/transport.py.
-- - Destination/Incoming and Destination/Discovery: `_validate_manifest`, `validate_run` and `discover_runs` in
--   src/airgap_sync/destination/incoming.py.
-- - Destination/Ddl: `quote_identifier` of src/airgap_sync/destination/mysql.py and `_identifier_at` of
--   src/airgap_sync/destination/ddl.py.
-- - Destination/Database: `DestinationMySQLConnection` in src/airgap_sync/destination/mysql.py, its
--   metadata tables and the tables of the configured database; Statements has `_execute`,
--   `_fetchone` and `transaction`, and the children hold the methods by what they work on (Runs,
--   Chunks, Versions, Catalog, Monitoring). Stable and Returns are the rules of proof for calls of
--   the database: what each call keeps, and what it gives where it returns; Rules joins the two.
-- - Destination/Processor: `DestinationVerifier` and `DestinationProcessor` in
--   src/airgap_sync/destination/processor.py, by stages (Import, Stage, Promote, Cleanup, Process);
--   Keeps carries the rules of Stable through them; Live follows the table under the target's name.
--
-- How the parts interact: the runner of a cycle calls the state database and, for each table, a
-- `sync_table` that is a parameter here; a scan drives the chunk writer and the digest; a snapshot
-- begins a run in the state database, scans, writes the manifest, and completes or fails the run; the
-- Destination side validates what the manifest declares. The processor takes the validated run, takes
-- two locks, registers it in the metadata, imports its chunks into a staging table, reads the table
-- back through the row codec into the digest, compares, and renames the table into place; every call
-- of the server among these may fail.
--
-- Conventions:
-- - A point of time is a number of seconds: all stored texts are UTC in one fixed-width format, so
--   they compare as these numbers do. What a clock, uuid4, an event, the disk or a callback answers
--   is a function of the number of questions asked before, so each may answer differently each time.
-- - A database table is the list of its rows in the order of their insertion. A row that is equal
--   under an ORDER BY comes first where it was inserted first. A transaction that raises restores the
--   state. SHA-256 and zstd are parameters: two hashes of a row, and the size and the hash of the
--   compressed lines. Failures of SQLite itself are not modelled, but for a broken key, and in
--   a migration for a table that is missing or is there already. The stream of a scan is its batches,
--   with what opening it, each fetch and closing it raise.
-- - The MySQL server of the Destination is `Server`: each call of it is carried out, refused, or carried
--   out with its reply lost, as a function of the number of calls before, and so is COMMIT. What a
--   CREATE TABLE statement makes, the values of generated columns, foreign keys, triggers and locks
--   of other sessions are parameters. A statement on a missing table, or with a key that is there,
--   raises. All tables are those of one database, the configured one. A ROLLBACK that raises replaces
--   the error, and the server takes the transaction back all the same, at the latest when the session
--   ends; the tables are of an engine with transactions, as the processor requires of a staging table.
-- - Texts in the metadata are compared exactly, as under a binary collation. A session may hold several
--   locks of GET_LOCK, as from MySQL 5.7 on; an older server releases the first one at the second call.
-- - Recursion is structural. The one fuel, in `width_from`, is the number whose digits are counted;
--   each step divides by ten, so it is enough. `attempts_from` counts the attempts that are left.
--
-- Not modelled: the delivery thread, opening and closing connections, the Destination's worker loop,
-- the creation and migration of its metadata tables, the progress files, monitoring, the command
-- line, logging, and the reading of configuration files; they are planned or are input and output.
pub mod Base
pub mod Common
pub mod Source
pub mod Destination
