-- ===== src/Lifecycle/Execution.antt =====
-- `execute_deletion` and `mark_failed` of src/ai_examiner/services/data_lifecycle.py, and the handler
-- `_delete_data_subject` of jobs.py around them. An exception rolls the rows back; what the store
-- has deleted by then stays deleted.
use ai_examiner.Prelude.{
  if◌then◌else◌, Dict, lookup, Result, ok, err, ℕ, String, Bool, true, false, ◌&&◌, Option, none,
  some, List, [], ◌∷◌, map, str_eq,
}
use ai_examiner.Lifecycle.Model.{
  TargetType, project, learner_identity, RequestStatus, approved, running, completed, blocked,
  failed, Verification, DataSubjectRequest, LegalHold, Db, LifecycleError, request_not_executable,
  deletion_verification_failed, storage_error, memory_error, request_not_found, put_request,
  is_delete,
}
use ai_examiner.Lifecycle.Deletion.{
  Backend, MemoryDeletion, active_legal_holds, delete_project, delete_learner_identity,
}

abbrev pub can_execute : RequestStatus → Bool
can_execute approved = true
can_execute failed = true
can_execute blocked = true
can_execute _ = false

unfoldable pub held_back : List LegalHold → DataSubjectRequest → DataSubjectRequest
held_back holds r = record r {
  status = blocked;
  blocked_reason = "legal_hold";
  verification = record {
    verified = false;
    relational_remaining = 0;
    objects_remaining = 0;
    legal_hold_ids = map (λ hold. hold.id) holds;
  };
}

abbrev pub started : DataSubjectRequest → DataSubjectRequest
started r = record r { status = running; blocked_reason = "" }

unfoldable pub finished : Dict ℕ → Verification → ℕ → DataSubjectRequest → DataSubjectRequest
finished counts verification now r = record r {
  status = completed;
  blocked_reason = "";
  deletion_counts = counts;
  verification = verification;
  completed_at = some now;
  failure_code = "";
}

-- `_delete_project` or `_delete_learner_identity`
abbrev pub delete_target :
    Backend
    → MemoryDeletion
    → TargetType
    → String
    → String
    → Db
    → Result LifecycleError (Dict ℕ × Verification) × Db
delete_target backend memory project organization_id id db =
    delete_project backend organization_id id db
delete_target backend memory learner_identity organization_id id db =
    delete_learner_identity memory organization_id id db

abbrev pub complete_if :
    Bool → DataSubjectRequest → Db → Result LifecycleError DataSubjectRequest × Db
complete_if true r db = (ok r, put_request r db)
complete_if false r db = (err deletion_verification_failed, db)

-- What follows the deletion of the target.
abbrev pub conclude :
    DataSubjectRequest
    → ℕ
    → Result LifecycleError (Dict ℕ × Verification) × Db
    → Result LifecycleError DataSubjectRequest × Db
conclude r now (err error, db) = (err error, db)
conclude r now (ok (counts, verification), db) =
    complete_if verification.verified (finished counts verification now r) db

abbrev pub execute_unless_held :
    Backend
    → MemoryDeletion
    → String
    → DataSubjectRequest
    → ℕ
    → List LegalHold
    → Db
    → Result LifecycleError DataSubjectRequest × Db
execute_unless_held backend memory organization_id r now (hold ∷ holds) db =
    (ok (held_back (hold ∷ holds) r), put_request (held_back (hold ∷ holds) r) db)
execute_unless_held backend memory organization_id r now [] db = conclude r now (
    delete_target backend memory r.target_type organization_id r.target_id
      (put_request (started r) db))

unfoldable pub execute_deletion :
    Backend
    → MemoryDeletion
    → String
    → DataSubjectRequest
    → ℕ
    → Db
    → Result LifecycleError DataSubjectRequest × Db
execute_deletion backend memory organization_id r now db =
    if is_delete r.request_type && can_execute r.status
    then execute_unless_held backend memory organization_id r now
        (active_legal_holds organization_id r.target_type r.target_id (some r.id) db) db
    else (err request_not_executable, db)

unfoldable pub mark_failed : String → DataSubjectRequest → DataSubjectRequest
mark_failed code r = record r { status = failed; failure_code = code }

abbrev pub is_blocked : RequestStatus → Bool
is_blocked blocked = true
is_blocked _ = false

-- The `except` block of the handler, after the rollback.
abbrev pub note_failure : String → Option DataSubjectRequest → Db → Db
note_failure code none db = db
note_failure code (some r) db =
    if is_blocked r.status then db else put_request (mark_failed code r) db

-- `type(exc).__name__`
abbrev pub class_name : LifecycleError → String
class_name request_not_found = "ValueError"
class_name storage_error = "StorageError"
class_name memory_error = "MemoryControlError"
class_name _ = "DataLifecycleError"

abbrev pub settle_deletion :
    String
    → Db
    → Result LifecycleError DataSubjectRequest × Db
    → Result LifecycleError DataSubjectRequest × Db
settle_deletion request_id before (ok r, db) = (ok r, db)
settle_deletion request_id before (err error, db) = (
  err error,
  note_failure (class_name error) (lookup request_id before.requests)
      (record before { files = db.files }),
)

abbrev pub execute_found :
    Backend
    → MemoryDeletion
    → String
    → ℕ
    → Option DataSubjectRequest
    → Db
    → Result LifecycleError DataSubjectRequest × Db
execute_found backend memory organization_id now none db = (err request_not_found, db)
execute_found backend memory organization_id now (some r) db =
    if str_eq r.organization_id organization_id
    then execute_deletion backend memory organization_id r now db
    else (err request_not_found, db)

-- The handler, for a job of an organization with the request in its payload.
unfoldable pub delete_data_subject :
    Backend
    → MemoryDeletion
    → String
    → String
    → ℕ
    → Db
    → Result LifecycleError DataSubjectRequest × Db
delete_data_subject backend memory organization_id request_id now db =
    settle_deletion request_id db
      (execute_found backend memory organization_id now (lookup request_id db.requests) db)
