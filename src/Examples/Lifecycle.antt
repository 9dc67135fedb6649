-- ===== src/Examples/Lifecycle.antt =====
-- A deletion request for one project, from src/ai_examiner/services/data_lifecycle.py.
use ai_examiner.Prelude.{
  keep, contains, lookup, insert, err, String, ◌≡◌, refl, Bool, true, not, none, some, [], ◌∷◌,
  str_eq,
}
use ai_examiner.Lifecycle.Model.{
  delete_data, project, approved, completed, DataSubjectRequest, project_scope, LegalHold, Db,
  request_not_executable,
}
use ai_examiner.Lifecycle.Reviews.{create_case, decide_case}
use ai_examiner.Lifecycle.Requests.{
  target_of, RequestDraft, find_request, new_request, create, Decision, decided, decide, withdrawn,
  enqueue_deletion, mark_dispatched,
}
use ai_examiner.Lifecycle.Deletion.{
  Backend, MemoryDeletion, covers, active_legal_holds, project_objects, without,
}
use ai_examiner.Lifecycle.Execution.{delete_data_subject}
use ai_examiner.Lifecycle.Steps.{creation, decision, execution, Reach, here, next}
use ai_examiner.Lifecycle.Held.{protects, IsHeld, Reach-IsHeld}
use ai_examiner.Lifecycle.Control.{IsReviewed}
use ai_examiner.Lifecycle.DualControl.{Reach-IsReviewed}
use ai_examiner.Lifecycle.Races.{dispatch_race, cancelled_revived}

-- A store that deletes a key, and a memory service that drops the identity.
abbrev backend : Backend
backend = record {
  delete_file = λ key files. some (keep (λ k. not (str_eq k key)) files);
  has_file = λ key files. contains files key;
}

abbrev memory : MemoryDeletion
memory id identities = some ([], without id identities)

abbrev empty : Db
empty = record {
  requests = [];
  cases = [];
  events = [];
  holds = [];
  projects = ("p", "org") ∷ [];
  identities = [];
  objects = [];
  files = [];
  deletion_jobs = [];
}

abbrev draft : RequestDraft
draft = record {
  request_type = delete_data;
  target_type = project;
  target_id = "p";
  requester_id = "alice";
  idempotency_key = "k1";
  reason = "leaving";
}

abbrev approval : Decision
approval = record {
  decision = "approved";
  reason = "checked";
  reviewer_id = "bob";
  idempotency_key = "k2";
}

abbrev may_release : String → Bool
may_release id = not (str_eq id "h1")

abbrev project_hold : LegalHold
project_hold = record {
  id = "h1";
  organization_id = "org";
  scope_type = project_scope;
  scope_id = some "p";
  reason = "case";
  is_active = true;
  created_by_principal_id = "carol";
  released_by_principal_id = none;
  release_reason = "";
  created_at = 0;
  released_at = none;
}

abbrev pending : DataSubjectRequest
pending = new_request "org" "r" "c" draft 1

abbrev approved_request : DataSubjectRequest
approved_request = record pending {
  reviewer_principal_id = some "bob";
  reviewed_at = some 2;
  final_decision = "approved";
  decision_idempotency_key = some "k2";
  decision_reason = "checked";
  status = approved;
}

abbrev held_db : Db
held_db = record empty {
  requests = ("r", approved_request) ∷ [];
  holds = project_hold ∷ [];
  deletion_jobs = "r" ∷ [];
}

held : IsHeld backend memory may_release "org" "p" held_db
unfolding lookup protects covers
held = record { has_project = refl; has_hold = refl }

Reach-IsHeld_example :
    IsHeld backend memory may_release "org" "p"
      (delete_data_subject backend memory "org" "r" 9 held_db).1
Reach-IsHeld_example =
    Reach-IsHeld backend memory may_release "org" "p" (next here (execution "org" "r" 9 refl)) held

abbrev created_db : Db
created_db = (create "org" "r" "c" draft 1 empty).1

abbrev decided_db : Db
decided_db = (decide "org" pending approval 2 created_db).1

request_created : lookup "r" created_db.requests ≡ some pending
unfolding create lookup target_of find_request create_case insert
request_created = refl

request_decided : lookup "r" decided_db.requests ≡ some approved_request
unfolding create lookup target_of find_request create_case insert decide decide_case decided
request_decided = refl

no_request : lookup "r" empty.requests ≡ none
unfolding lookup
no_request = refl

review_path : Reach backend memory may_release empty decided_db
review_path =
    next (next here (creation "org" "r" "c" draft 1 no_request))
      (decision "org" "r" pending approval 2 request_created)

Reach-IsReviewed_example : IsReviewed approved_request
Reach-IsReviewed_example =
    Reach-IsReviewed backend memory may_release "r" approved_request review_path refl refl
      request_decided refl refl

abbrev approved_db : Db
approved_db = record empty { requests = ("r", approved_request) ∷ [] }

approved_found : lookup "r" approved_db.requests ≡ some approved_request
unfolding lookup
approved_found = refl

dispatch_race_example :
    (delete_data_subject backend memory "org" "r" 5
      (mark_dispatched "j" approved_request (enqueue_deletion approved_request approved_db))).0
    ≡ err request_not_executable
dispatch_race_example =
    (dispatch_race backend memory 5 approved_request approved_db approved_found "j" refl).0

abbrev cancelled_request : DataSubjectRequest
cancelled_request = withdrawn "changed my mind" 3 approved_request

abbrev cancelled_db : Db
cancelled_db = record empty { requests = ("r", cancelled_request) ∷ []; deletion_jobs = "r" ∷ [] }

cancelled_found : lookup "r" cancelled_db.requests ≡ some cancelled_request
unfolding lookup
cancelled_found = refl

project_found : lookup "p" cancelled_db.projects ≡ some "org"
unfolding lookup
project_found = refl

nothing_held : active_legal_holds "org" project "p" (some "r") cancelled_db ≡ []
unfolding active_legal_holds
nothing_held = refl

nothing_stored : project_objects "org" "p" cancelled_db ≡ []
unfolding project_objects
nothing_stored = refl

cancelled_revived_example :
    let first = (delete_data_subject backend memory "org" "r" 5 cancelled_db).1 in
    let second = (delete_data_subject backend memory "org" "r" 5 first).1 in
    (lookup "p" second.projects ≡ none)
    × ((row : DataSubjectRequest) × (lookup "r" second.requests ≡ some row)
        × (row.status ≡ completed))
cancelled_revived_example =
    cancelled_revived backend memory 5 cancelled_request cancelled_db cancelled_found refl refl refl
      project_found nothing_held nothing_stored
