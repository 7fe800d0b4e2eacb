-- ===== src/Source/Artifacts.antt =====
-- Artifacts of a run: `register_artifact`, the marks of the upload worker and `get_artifacts`,
-- src/airgap_sync/source/state.py.
use airgap_sync.Base.{
  Bool, List, Option, String, [], if◌then◌else◌, ltb, nat_eq, none, option_eq, some, string_eq, suc,
  ℕ, ◌&&◌, ◌++◌, ◌==◌, ◌||◌, ◌∷◌,
}
use airgap_sync.Base.Exec.{err, modify, ok}
use airgap_sync.Base.Rows.{exists_row, select_where, update_where}
use airgap_sync.Source.Schema.{
  ArtifactKind, Call, Db, RunArtifact, UploadStatus, execute, integrity_error,
}

abbrev pub of_artifact : String → String → RunArtifact → Bool
of_artifact run_id name a = a.run_id == run_id && a.logical_name == name

abbrev clashes : RunArtifact → RunArtifact → Bool
clashes new a = of_artifact new.run_id new.logical_name a || a.transport_name == new.transport_name

-- INSERT; (run_id, logical_name) is the primary key and transport_name is UNIQUE.
abbrev insert_artifact : RunArtifact → Call Unit
insert_artifact a s =
    if exists_row (clashes a) s.run_artifacts
    then (err integrity_error, s)
    else (ok tt, record s { run_artifacts = s.run_artifacts ++ a ∷ [] })

unfoldable pub register_artifact :
    ℕ → String → ArtifactKind → Option ℕ → String → String → ℕ → String → Call Unit
register_artifact now run_id kind sequence logical_name transport_name size sha256 = execute (
    insert_artifact (record {
      run_id = run_id;
      kind = kind;
      sequence = sequence;
      logical_name = logical_name;
      transport_name = transport_name;
      size = size;
      sha256 = sha256;
      upload_status = UploadStatus.pending;
      attempts = 0;
      request_id = none;
      last_error = none;
      uploaded_at = none;
      cleanup_error = none;
      created_at = now;
    }))

abbrev update_artifact : String → String → (RunArtifact → RunArtifact) → Call Unit
update_artifact run_id name f = execute (
    modify
      λ s. record s { run_artifacts = update_where (of_artifact run_id name) f s.run_artifacts })

unfoldable pub mark_upload_attempt : String → String → ℕ → Call Unit
mark_upload_attempt run_id name attempt =
    update_artifact run_id name
      λ a. record a { upload_status = UploadStatus.uploading; attempts = attempt }

unfoldable pub mark_uploaded : ℕ → String → String → ℕ → String → Call Unit
mark_uploaded now run_id name tries request = update_artifact run_id name λ a. record a {
  upload_status = UploadStatus.uploaded;
  attempts = tries;
  request_id = some request;
  last_error = none;
  uploaded_at = some now;
}

unfoldable pub mark_artifact_failed : String → String → ℕ → String → Call Unit
mark_artifact_failed run_id name tries error =
    update_artifact run_id name λ a. record a {
      upload_status = UploadStatus.failed;
      attempts = tries;
      last_error = some error;
    }

unfoldable pub mark_cleanup_error : String → String → Option String → Call Unit
mark_cleanup_error run_id name error =
    update_artifact run_id name λ a. record a { cleanup_error = error }

-- CASE kind WHEN 'chunk' THEN 1 WHEN 'schema' THEN 2 ELSE 3 END
abbrev pub kind_rank : ArtifactKind → ℕ
kind_rank ArtifactKind.chunk = 1
kind_rank ArtifactKind.schema = 2
kind_rank ArtifactKind.manifest = 3

-- NULL comes before every number.
abbrev pub sequence_rank : Option ℕ → ℕ
sequence_rank none = 0
sequence_rank (some n) = suc n

abbrev pub comes_before : RunArtifact → RunArtifact → Bool
comes_before a b =
    ltb (kind_rank a.kind) (kind_rank b.kind)
    || (kind_rank a.kind == kind_rank b.kind
        && ltb (sequence_rank a.sequence) (sequence_rank b.sequence))

-- ORDER BY kind, sequence
insert_sorted : RunArtifact → List RunArtifact → List RunArtifact
insert_sorted a [] = a ∷ []
insert_sorted a (b ∷ bs) = if comes_before b a then b ∷ insert_sorted a bs else a ∷ b ∷ bs

order_artifacts : List RunArtifact → List RunArtifact
unfolding insert_sorted
order_artifacts [] = []
order_artifacts (a ∷ as') = insert_sorted a (order_artifacts as')

unfoldable pub get_artifacts : String → Db → List RunArtifact
unfolding order_artifacts
get_artifacts run_id s = order_artifacts (select_where (λ a. a.run_id == run_id) s.run_artifacts)
