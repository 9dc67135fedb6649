-- ===== src/Lifecycle/Retention.antt =====
-- Retention policies and the download of an export: `ensure_retention_policy`,
-- `update_retention_policy` and `export_artifact_or_error` of
-- src/ai_examiner/services/data_lifecycle.py. The digest, the clock, and the backend's deletion and
-- verification of an object are arguments.
use ai_examiner.Prelude.{
  leb, if◌then◌else◌, Dict, lookup, insert, Result, ok, err, ℕ, ◌+◌, String, Bool, true, false,
  ◌&&◌, Option, none, some, str_eq,
}
use ai_examiner.Lifecycle.Model.{StoredObject}

pub data PolicyMode : Type 0 where
  monitor enforce : PolicyMode

-- What `_policy_values` lists.
pub record PolicyValues : Type 0 where
  pub policy_mode : PolicyMode
  pub project_days : ℕ
  pub session_days : ℕ
  pub document_days : ℕ
  pub learner_memory_days : ℕ
  pub export_ttl_hours : ℕ
  pub deletion_grace_days : ℕ

pub record OrganizationRetentionPolicy : Type 0 where
  pub organization_id : String
  pub version : ℕ
  pub values : PolicyValues
  pub policy_digest : String
  pub updated_by_principal_id : Option String
  pub updated_at : ℕ

abbrev pub default_values : PolicyValues
default_values = record {
  policy_mode = monitor;
  project_days = 730;
  session_days = 365;
  document_days = 365;
  learner_memory_days = 365;
  export_ttl_hours = 24;
  deletion_grace_days = 7;
}

abbrev ensured :
    (PolicyValues → String)
    → String
    → ℕ
    → Option OrganizationRetentionPolicy
    → Dict OrganizationRetentionPolicy
    → OrganizationRetentionPolicy × Dict OrganizationRetentionPolicy
ensured digest organization_id now (some policy) policies = (policy, policies)
ensured digest organization_id now none policies =
    let policy : OrganizationRetentionPolicy = record {
      organization_id = organization_id;
      version = 1;
      values = default_values;
      policy_digest = digest default_values;
      updated_by_principal_id = none;
      updated_at = now;
    } in
    (policy, insert organization_id policy policies)

unfoldable pub ensure_retention_policy :
    (PolicyValues → String)
    → String
    → ℕ
    → Dict OrganizationRetentionPolicy
    → OrganizationRetentionPolicy × Dict OrganizationRetentionPolicy
ensure_retention_policy digest organization_id now policies =
    ensured digest organization_id now (lookup organization_id policies) policies

unfoldable pub update_retention_policy :
    (PolicyValues → String)
    → OrganizationRetentionPolicy
    → PolicyValues
    → String
    → ℕ
    → Dict OrganizationRetentionPolicy
    → OrganizationRetentionPolicy × Dict OrganizationRetentionPolicy
update_retention_policy digest policy values principal_id now policies =
    let policy' = record policy {
      values = values;
      version = policy.version + 1;
      policy_digest = digest values;
      updated_by_principal_id = some principal_id;
      updated_at = now;
    } in
    (policy', insert policy.organization_id policy' policies)

pub data ExportStatus : Type 0 where
  export_queued export_running export_completed export_failed export_expired : ExportStatus

-- What the download reads of `OrganizationExportArtifact`.
pub record ExportArtifact : Type 0 where
  pub id : String
  pub status : ExportStatus
  pub storage_object_id : Option String
  pub expires_at : ℕ

pub data ExportError : Type 0 where
  export_not_found expired unavailable storage_failure : ExportError

pub record Exports : Type 0 where
  pub artifacts : Dict ExportArtifact
  pub objects : Dict StoredObject

-- `db.get(StoredObject, artifact.storage_object_id) if artifact.storage_object_id else None`
abbrev pub stored_of : Option String → Dict StoredObject → Option StoredObject
stored_of none objects = none
stored_of (some id) objects = if str_eq id "" then none else lookup id objects

-- `StorageService.delete` on the row of an active object.
abbrev pub dropped : Option String → Option StoredObject → Dict StoredObject → Dict StoredObject
dropped none o objects = objects
dropped (some id) none objects = objects
dropped (some id) (some o) objects =
    if o.is_active then insert id (record o { is_active = false }) objects else objects

abbrev pub is_completed_export : ExportStatus → Bool
is_completed_export export_completed = true
is_completed_export _ = false

-- The backend's part: whether an object verifies.
abbrev pub hand_out :
    (StoredObject → Bool)
    → ExportArtifact
    → Option StoredObject
    → Exports
    → Result ExportError (ExportArtifact × StoredObject) × Exports
hand_out verifies artifact none db = (err unavailable, db)
hand_out verifies artifact (some stored) db =
    if is_completed_export artifact.status && stored.is_active
    then (if verifies stored then (ok (artifact, stored), db) else (err storage_failure, db))
    else (err unavailable, db)

abbrev pub export_found :
    (StoredObject → Bool)
    → ℕ
    → Option ExportArtifact
    → Exports
    → Result ExportError (ExportArtifact × StoredObject) × Exports
export_found verifies now none db = (err export_not_found, db)
export_found verifies now (some artifact) db =
    let stored = stored_of artifact.storage_object_id db.objects in
    if leb artifact.expires_at now
    then (
      err expired,
      record {
        artifacts = insert artifact.id (record artifact { status = export_expired }) db.artifacts;
        objects = dropped artifact.storage_object_id stored db.objects;
      },
    )
    else hand_out verifies artifact stored db

unfoldable pub export_artifact_or_error :
    (StoredObject → Bool)
    → String
    → ℕ
    → Exports
    → Result ExportError (ExportArtifact × StoredObject) × Exports
export_artifact_or_error verifies artifact_id now db =
    export_found verifies now (lookup artifact_id db.artifacts) db
