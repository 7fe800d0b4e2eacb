-- ===== src/Destination/Processor/History.antt =====
-- The versions that runs of the processor leave, src/airgap_sync/destination/processor.py.
use airgap_sync.Base.{List, String}
use airgap_sync.Destination.Database.{Destination}
use airgap_sync.Destination.Database.Versions.Ordered.{HistoryOf, HistoryOf-IsStable}
use airgap_sync.Destination.Processor.{Setting}
use airgap_sync.Destination.Processor.Keeps.Whole.{process_all-Kept}
use airgap_sync.Destination.Processor.Process.{process_all}

-- However runs are processed, one after the other, retried or failing at any call of the server, with
-- whatever files, the versions come from insertions of a next version: newer than the latest version of
-- the table, and linked to it by its run, its row count and the difference of the row counts.
pub process_all-HistoryOf :
    (at : Setting) (ids : List String) (s : Destination)
    → HistoryOf s
    → HistoryOf (process_all at ids s).1
process_all-HistoryOf at ids s h =
    (process_all-Kept HistoryOf HistoryOf-IsStable (λ x names k. k) at ids).keeps s h
