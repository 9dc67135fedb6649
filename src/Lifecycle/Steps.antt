-- ===== src/Lifecycle/Steps.antt =====
-- The operations of src/ai_examiner/services/data_lifecycle.py, the routes of main.py and the worker
-- as steps, in any order. The enqueuing of a deletion, its execution and the route's second commit
-- are steps of their own, so the worker may come before or after the route goes on.
use ai_examiner.Prelude.{contains, lookup, ℕ, String, ◌≡◌, Bool, true, Option, none, some, str_eq}
use ai_examiner.Lifecycle.Model.{DataSubjectRequest, ScopeType, HumanReviewCase, Db}
use ai_examiner.Lifecycle.Reviews.{assign, decide_case, appeal}
use ai_examiner.Lifecycle.Requests.{
  RequestDraft, create, Decision, decide, cancel, enqueue_deletion, mark_dispatched, retry_request,
  create_hold, release_hold,
}
use ai_examiner.Lifecycle.Deletion.{Backend, MemoryDeletion}
use ai_examiner.Lifecycle.Execution.{delete_data_subject}

-- `may_release` holds the identifiers of the legal holds that operators may release.
pub data Step (backend : Backend) (memory : MemoryDeletion) (may_release : String → Bool) (db : Db)
    : Db → Type 0 where
  creation :
      (organization_id id case_id : String) (draft : RequestDraft) (now : ℕ)
      → lookup id db.requests ≡ none
      → Step backend memory may_release db (create organization_id id case_id draft now db).1
  decision :
      (organization_id key : String) (r : DataSubjectRequest) (d : Decision) (now : ℕ)
      → lookup key db.requests ≡ some r
      → Step backend memory may_release db (decide organization_id r d now db).1
  cancellation :
      (key : String) (r : DataSubjectRequest) (actor_id reason : String) (now : ℕ)
      → lookup key db.requests ≡ some r
      → Step backend memory may_release db (cancel r actor_id reason now db).1
  enqueuing :
      (key : String) (r : DataSubjectRequest)
      → lookup key db.requests ≡ some r
      → str_eq r.final_decision "approved" ≡ true
      → Step backend memory may_release db (enqueue_deletion r db)
  marking :
      (key job_id : String) (r : DataSubjectRequest)
      → lookup key db.requests ≡ some r
      → str_eq r.final_decision "approved" ≡ true
      → Step backend memory may_release db (mark_dispatched job_id r db)
  retrial :
      (key : String) (r : DataSubjectRequest) {db' : Db}
      → lookup key db.requests ≡ some r
      → retry_request r db ≡ some db'
      → Step backend memory may_release db db'
  execution :
      (organization_id request_id : String) (now : ℕ)
      → contains db.deletion_jobs request_id ≡ true
      → Step backend memory may_release db
          (delete_data_subject backend memory organization_id request_id now db).1
  hold :
      (organization_id id : String) (scope_type : ScopeType) (scope_id : Option String)
      (reason principal_id : String) (now : ℕ) {db' : Db}
      → create_hold organization_id id scope_type scope_id reason principal_id now db ≡ some db'
      → Step backend memory may_release db db'
  release :
      (id principal_id reason : String) (now : ℕ) {db' : Db}
      → may_release id ≡ true
      → release_hold id principal_id reason now db ≡ some db'
      → Step backend memory may_release db db'
  case_assignment :
      (organization_id reviewer_id actor_id : String) (c : HumanReviewCase)
      → Step backend memory may_release db (assign organization_id c reviewer_id actor_id db).1
  case_decision :
      (organization_id decision actor_id : String) (c : HumanReviewCase) (now : ℕ)
      → Step backend memory may_release db
          (decide_case organization_id c decision actor_id now db).1
  case_appeal :
      (organization_id actor_id : String) (c : HumanReviewCase)
      → Step backend memory may_release db (appeal organization_id c actor_id db).1

pub data Reach (backend : Backend) (memory : MemoryDeletion) (may_release : String → Bool) (db : Db)
    : Db → Type 0 where
  here : Reach backend memory may_release db db
  next :
      {db' db'' : Db}
      → Reach backend memory may_release db db'
      → Step backend memory may_release db' db''
      → Reach backend memory may_release db db''
