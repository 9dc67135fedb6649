-- ===== src/Lifecycle/Model.antt =====
-- The rows that src/ai_examiner/services/data_lifecycle.py reads and writes (models.py). A project or
-- a learner identity is its organization under its identifier; a stored object is what deletion
-- reads of it, and `files` holds the keys that the object store has. `deletion_jobs` holds the
-- `request_id` of the payload of each `data_subject_deletion` job that was enqueued.
use ai_examiner.Prelude.{Dict, insert, ℕ, String, Bool, true, false, Option, List, [], ◌∷◌, ◌++◌}

pub data RequestType : Type 0 where
  export_data delete_data : RequestType

pub data TargetType : Type 0 where
  project learner_identity : TargetType

pub data RequestStatus : Type 0 where
  requested approved running verifying completed : RequestStatus
  blocked failed cancelled denied : RequestStatus

-- `verification_json`
pub record Verification : Type 0 where
  pub verified : Bool
  pub relational_remaining : ℕ
  pub objects_remaining : ℕ
  pub legal_hold_ids : List String

pub record DataSubjectRequest : Type 0 where
  pub id : String
  pub organization_id : String
  pub request_type : RequestType
  pub target_type : TargetType
  pub target_id : String
  pub requester_principal_id : String
  pub reviewer_principal_id : Option String
  pub status : RequestStatus
  pub final_decision : String
  pub decision_reason : String
  pub idempotency_key : String
  pub decision_idempotency_key : Option String
  pub review_case_id : Option String
  pub job_id : Option String
  pub verification : Verification
  pub deletion_counts : Dict ℕ
  pub blocked_reason : String
  pub failure_code : String
  pub requested_at : ℕ
  pub reviewed_at : Option ℕ
  pub completed_at : Option ℕ

pub data ScopeType : Type 0 where
  organization_scope project_scope learner_identity_scope request_scope : ScopeType

pub record LegalHold : Type 0 where
  pub id : String
  pub organization_id : String
  pub scope_type : ScopeType
  pub scope_id : Option String
  pub reason : String
  pub is_active : Bool
  pub created_by_principal_id : String
  pub released_by_principal_id : Option String
  pub release_reason : String
  pub created_at : ℕ
  pub released_at : Option ℕ

pub data CaseStatus : Type 0 where
  case_open case_assigned case_decided case_appealed case_closed : CaseStatus

pub record HumanReviewCase : Type 0 where
  pub id : String
  pub organization_id : String
  pub case_type : String
  pub resource_type : String
  pub resource_id : String
  pub status : CaseStatus
  pub title : String
  pub summary : String
  pub evidence : List String
  pub created_by_actor_type : String
  pub created_by_actor_id : Option String
  pub assigned_principal_id : Option String
  pub final_decision : String
  pub final_decision_by_principal_id : Option String
  pub decided_at : Option ℕ

pub data EventType : Type 0 where
  created_event assigned_event decision_event appeal_event : EventType

-- An event of a case; its payload is left out but for the decision.
pub record HumanReviewEvent : Type 0 where
  pub organization_id : String
  pub case_id : String
  pub event_type : EventType
  pub actor_type : String
  pub actor_id : Option String
  pub decision : String

pub record StoredObject : Type 0 where
  pub organization_id : String
  pub project_id : Option String
  pub object_key : String
  pub is_active : Bool

pub record Db : Type 0 where
  pub requests : Dict DataSubjectRequest
  pub cases : Dict HumanReviewCase
  pub events : List HumanReviewEvent
  pub holds : List LegalHold
  pub projects : Dict String
  pub identities : Dict String
  pub objects : Dict StoredObject
  pub files : List String
  pub deletion_jobs : List String

-- The codes of `DataLifecycleError` that the modelled operations raise, and the errors of the
-- storage and of the memory service that they call.
pub data LifecycleError : Type 0 where
  review_case_terminal review_case_not_decided review_case_missing : LifecycleError
  target_not_found idempotency_conflict request_not_pending : LifecycleError
  dual_control_required request_not_cancellable request_cancel_denied : LifecycleError
  request_not_executable deletion_verification_failed : LifecycleError
  object_delete_verification_failed storage_error memory_error request_not_found : LifecycleError

abbrev pub put_request : DataSubjectRequest → Db → Db
put_request r db = record db { requests = insert r.id r db.requests }

abbrev pub put_case : HumanReviewCase → HumanReviewEvent → Db → Db
put_case c event db = record db { cases = insert c.id c db.cases; events = db.events ++ event ∷ [] }

abbrev pub is_delete : RequestType → Bool
is_delete delete_data = true
is_delete export_data = false

abbrev pub same_request_type : RequestType → RequestType → Bool
same_request_type delete_data delete_data = true
same_request_type export_data export_data = true
same_request_type _ _ = false

abbrev pub same_target_type : TargetType → TargetType → Bool
same_target_type project project = true
same_target_type learner_identity learner_identity = true
same_target_type _ _ = false
