-- ===== src/Common/Transport.antt =====
-- The names of files at the relay, `transport_filename` of `src/airgap_sync/common/transport.py`. Whether
-- a text matches the patterns of a run identifier and of a logical name is a parameter.
use Prim.Native.String.{◌++◌ as str_append}
use airgap_sync.Base.{Bool, Option, String, if◌then◌else◌, none, some, ◌&&◌}

pub record Patterns : Type 0 where
  pub is_run_id : String → Bool
  pub is_logical : String → Bool

-- f"{PREFIX}--{run_id}--{logical_name}", where both match.
unfoldable pub transport_filename : Patterns → String → String → Option String
transport_filename patterns run_id logical_name =
    if patterns.is_run_id run_id && patterns.is_logical logical_name
    then some (str_append "airgap-v1--" (str_append run_id (str_append "--" logical_name)))
    else none
