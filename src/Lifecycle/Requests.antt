-- ===== src/Lifecycle/Requests.antt =====
-- `DataSubjectRequestService` of src/ai_examiner/services/data_lifecycle.py up to the decision, and
-- the routes of main.py that hand an approved deletion to the worker, give it another try, and
-- create and release legal holds. The request is the row that the caller has read; an error leaves
-- the database as it was. Identifiers and the clock are arguments.
use ai_examiner.Prelude.{
  if◌then◌else◌, or_default, opt_eq, exists, Dict, lookup, Result, ok, err, ℕ, String, Bool, true,
  false, ◌&&◌, ◌||◌, Option, none, some, [], ◌∷◌, ◌++◌, map, str_eq,
}
use ai_examiner.Lifecycle.Model.{
  RequestType, TargetType, project, learner_identity, RequestStatus, requested, approved, running,
  blocked, failed, cancelled, denied, Verification, DataSubjectRequest, ScopeType,
  organization_scope, project_scope, learner_identity_scope, request_scope, LegalHold,
  HumanReviewCase, Db, LifecycleError, review_case_missing, target_not_found, idempotency_conflict,
  request_not_pending, dual_control_required, request_not_cancellable, request_cancel_denied,
  put_request, is_delete, same_request_type, same_target_type,
}
use ai_examiner.Lifecycle.Reviews.{CaseDraft, create_case, decide_case}

-- `target is None or target.organization_id != self.organization_id`, negated
abbrev pub owned_by : String → Option String → Bool
owned_by organization_id none = false
owned_by organization_id (some owner) = str_eq owner organization_id

unfoldable pub target_of : TargetType → String → Db → Option String
target_of project id db = lookup id db.projects
target_of learner_identity id db = lookup id db.identities

-- The arguments of `create`.
pub record RequestDraft : Type 0 where
  pub request_type : RequestType
  pub target_type : TargetType
  pub target_id : String
  pub requester_id : String
  pub idempotency_key : String
  pub reason : String

abbrev pub is_same_key : String → RequestDraft → DataSubjectRequest → Bool
is_same_key organization_id draft r =
    str_eq r.organization_id organization_id
    && (str_eq r.requester_principal_id draft.requester_id
        && str_eq r.idempotency_key draft.idempotency_key)

unfoldable pub find_request :
    String → RequestDraft → Dict DataSubjectRequest → Option DataSubjectRequest
find_request organization_id draft [] = none
find_request organization_id draft ((id, r) ∷ rest) =
    if is_same_key organization_id draft r then some r else find_request organization_id draft rest

abbrev pub no_verification : Verification
no_verification = record {
  verified = false;
  relational_remaining = 0;
  objects_remaining = 0;
  legal_hold_ids = [];
}

abbrev pub new_request : String → String → String → RequestDraft → ℕ → DataSubjectRequest
new_request organization_id id case_id draft now = record {
  id = id;
  organization_id = organization_id;
  request_type = draft.request_type;
  target_type = draft.target_type;
  target_id = draft.target_id;
  requester_principal_id = draft.requester_id;
  reviewer_principal_id = none;
  status = requested;
  final_decision = "";
  decision_reason = draft.reason;
  idempotency_key = draft.idempotency_key;
  decision_idempotency_key = none;
  review_case_id = some case_id;
  job_id = none;
  verification = no_verification;
  deletion_counts = [];
  blocked_reason = "";
  failure_code = "";
  requested_at = now;
  reviewed_at = none;
  completed_at = none;
}

abbrev pub request_case : String → RequestDraft → CaseDraft
request_case id draft = record {
  case_type = "data_subject_request";
  resource_type = "data_subject_request";
  resource_id = id;
  title = "";
  summary = draft.reason;
  evidence = [];
  actor_type = "human";
  actor_id = some draft.requester_id;
}

abbrev reuse_or_create :
    String
    → String
    → String
    → RequestDraft
    → ℕ
    → Option DataSubjectRequest
    → Db
    → Result LifecycleError DataSubjectRequest × Db
reuse_or_create organization_id id case_id draft now (some existing) db =
    if same_request_type existing.request_type draft.request_type
      && (same_target_type existing.target_type draft.target_type
          && str_eq existing.target_id draft.target_id)
    then (ok existing, db)
    else (err idempotency_conflict, db)
reuse_or_create organization_id id case_id draft now none db =
    let r = new_request organization_id id case_id draft now in
    (ok r, put_request r (create_case organization_id case_id (request_case id draft) db).1)

unfoldable pub create :
    String → String → String → RequestDraft → ℕ → Db → Result LifecycleError DataSubjectRequest × Db
create organization_id id case_id draft now db =
    if owned_by organization_id (target_of draft.target_type draft.target_id db)
    then reuse_or_create organization_id id case_id draft now
        (find_request organization_id draft db.requests) db
    else (err target_not_found, db)

-- The arguments of `decide`.
pub record Decision : Type 0 where
  pub decision : String
  pub reason : String
  pub reviewer_id : String
  pub idempotency_key : String

unfoldable pub decided : Decision → ℕ → DataSubjectRequest → DataSubjectRequest
decided d now r =
    let is_approved = str_eq d.decision "approved" in
    record r {
      reviewer_principal_id = some d.reviewer_id;
      reviewed_at = some now;
      final_decision = d.decision;
      decision_idempotency_key = some d.idempotency_key;
      decision_reason = d.reason;
      status = if is_approved then approved else denied;
      completed_at = if str_eq d.decision "denied" then some now else r.completed_at;
    }

-- `self.db.get(HumanReviewCase, request.review_case_id)`
abbrev pub case_of : Option String → Db → Option HumanReviewCase
case_of none db = none
case_of (some id) db = lookup id db.cases

abbrev pub after_case :
    Decision
    → ℕ
    → DataSubjectRequest
    → Db
    → Result LifecycleError HumanReviewCase × Db
    → Result LifecycleError DataSubjectRequest × Db
after_case d now r before (err error, db) = (err error, before)
after_case d now r before (ok c, db) = (ok (decided d now r), put_request (decided d now r) db)

abbrev pub decide_found :
    String
    → Decision
    → ℕ
    → DataSubjectRequest
    → Option HumanReviewCase
    → Db
    → Result LifecycleError DataSubjectRequest × Db
decide_found organization_id d now r none db = (err review_case_missing, db)
decide_found organization_id d now r (some c) db =
    after_case d now r db (decide_case organization_id c d.decision d.reviewer_id now db)

abbrev pub is_requested : RequestStatus → Bool
is_requested requested = true
is_requested _ = false

unfoldable pub decide :
    String → DataSubjectRequest → Decision → ℕ → Db → Result LifecycleError DataSubjectRequest × Db
decide organization_id r d now db =
    if opt_eq r.decision_idempotency_key (some d.idempotency_key)
    then (if str_eq r.final_decision d.decision
          && opt_eq r.reviewer_principal_id (some d.reviewer_id)
        then (ok r, db)
        else (err idempotency_conflict, db))
    else if is_requested r.status
    then (if is_delete r.request_type && str_eq d.reviewer_id r.requester_principal_id
        then (err dual_control_required, db)
        else decide_found organization_id d now r (case_of r.review_case_id db) db)
    else (err request_not_pending, db)

abbrev pub can_cancel : RequestStatus → Bool
can_cancel requested = true
can_cancel approved = true
can_cancel blocked = true
can_cancel failed = true
can_cancel _ = false

abbrev pub withdrawn : String → ℕ → DataSubjectRequest → DataSubjectRequest
withdrawn reason now r = record r {
  status = cancelled;
  final_decision = "cancelled";
  decision_reason = reason;
  completed_at = some now;
}

unfoldable pub cancel :
    DataSubjectRequest → String → String → ℕ → Db → Result LifecycleError DataSubjectRequest × Db
cancel r actor_id reason now db =
    if can_cancel r.status
    then (if str_eq actor_id r.requester_principal_id
          || opt_eq r.reviewer_principal_id (some actor_id)
        then (ok (withdrawn reason now r), put_request (withdrawn reason now r) db)
        else (err request_cancel_denied, db))
    else (err request_not_cancellable, db)

-- The deletion branch of `_dispatch_approved_data_subject_request`: first the job is enqueued, and
-- the worker may take it up at once; then the row is read again and marked.
unfoldable pub enqueue_deletion : DataSubjectRequest → Db → Db
enqueue_deletion r db = record db { deletion_jobs = r.id ∷ db.deletion_jobs }

abbrev pub is_approved : RequestStatus → Bool
is_approved approved = true
is_approved _ = false

abbrev pub dispatched : String → DataSubjectRequest → DataSubjectRequest
dispatched job_id r = record r {
  job_id = some job_id;
  status = if is_approved r.status then running else r.status;
}

unfoldable pub mark_dispatched : String → DataSubjectRequest → Db → Db
mark_dispatched job_id r db = put_request (dispatched job_id r) db

abbrev pub can_try_again : RequestStatus → Bool
can_try_again failed = true
can_try_again blocked = true
can_try_again _ = false

abbrev pub reopened : DataSubjectRequest → DataSubjectRequest
reopened r = record r { status = approved; failure_code = ""; blocked_reason = "" }

-- `retry_data_subject_request` up to its dispatch; the route answers 409 otherwise (none).
unfoldable pub retry_request : DataSubjectRequest → Db → Option Db
retry_request r db =
    if str_eq r.final_decision "approved" && can_try_again r.status
    then some (put_request (reopened r) db)
    else none

-- The scope of a new hold belongs to the organization.
abbrev pub hold_target : String → ScopeType → String → Db → Option String
hold_target organization_id organization_scope scope_id db = some organization_id
hold_target organization_id project_scope scope_id db = lookup scope_id db.projects
hold_target organization_id learner_identity_scope scope_id db = lookup scope_id db.identities
hold_target organization_id request_scope scope_id db = elim (lookup scope_id db.requests) [
  | none ↦ none
  | some r ↦ some r.organization_id
]

-- `create_organization_legal_hold`; the route answers 404 otherwise (none).
unfoldable pub create_hold :
    String → String → ScopeType → Option String → String → String → ℕ → Db → Option Db
create_hold organization_id id scope_type scope_id reason principal_id now db =
    if owned_by organization_id (hold_target organization_id scope_type (or_default scope_id "") db)
    then some (record db {
      holds =
          db.holds
          ++ record {
            id = id;
            organization_id = organization_id;
            scope_type = scope_type;
            scope_id = scope_id;
            reason = reason;
            is_active = true;
            created_by_principal_id = principal_id;
            released_by_principal_id = none;
            release_reason = "";
            created_at = now;
            released_at = none;
          }
            ∷ [];
    })
    else none

unfoldable pub released : String → String → String → ℕ → LegalHold → LegalHold
released id principal_id reason now hold =
    if str_eq hold.id id
    then record hold {
      is_active = false;
      released_by_principal_id = some principal_id;
      release_reason = reason;
      released_at = some now;
    }
    else hold

-- `release_organization_legal_hold`; the route answers 404 or 409 otherwise (none).
unfoldable pub release_hold : String → String → String → ℕ → Db → Option Db
release_hold id principal_id reason now db =
    if exists (λ hold. str_eq hold.id id && hold.is_active) db.holds
    then some (record db { holds = map (released id principal_id reason now) db.holds })
    else none
