-- ===== src/Lifecycle/Aside.antt =====
-- The operations of src/ai_examiner/services/data_lifecycle.py that touch neither projects nor holds.
use ai_examiner.Prelude.{ℕ, String, ◌≡◌, refl, some, arith}
use ai_examiner.Lifecycle.Model.{DataSubjectRequest, HumanReviewCase, Db}
use ai_examiner.Lifecycle.Reviews.{create_case, assign, decide_case, appeal}
use ai_examiner.Lifecycle.Requests.{
  RequestDraft, create, Decision, decide, cancel, enqueue_deletion, mark_dispatched, retry_request,
}

-- The projects and the holds are as they were.
pub record IsAside (db db' : Db) : Type 0 where
  pub same_projects : db'.projects ≡ db.projects
  pub same_holds : db'.holds ≡ db.holds

pub create-IsAside :
    (organization id case_id : String) (draft : RequestDraft) (now : ℕ) (db : Db)
    → IsAside db (create organization id case_id draft now db).1
unfolding create create_case
create-IsAside organization id case_id draft now db = record {
  same_projects = ground arith;
  same_holds = ground arith;
}

pub decide-IsAside :
    (organization : String) (r : DataSubjectRequest) (d : Decision) (now : ℕ) (db : Db)
    → IsAside db (decide organization r d now db).1
unfolding decide decide_case
decide-IsAside organization r d now db = record {
  same_projects = ground arith;
  same_holds = ground arith;
}

pub cancel-IsAside :
    (r : DataSubjectRequest) (actor reason : String) (now : ℕ) (db : Db)
    → IsAside db (cancel r actor reason now db).1
unfolding cancel
cancel-IsAside r actor reason now db = record {
  same_projects = ground arith;
  same_holds = ground arith;
}

pub enqueue_deletion-IsAside :
    (r : DataSubjectRequest) (db : Db) → IsAside db (enqueue_deletion r db)
unfolding enqueue_deletion
enqueue_deletion-IsAside r db = record { same_projects = refl; same_holds = refl }

pub mark_dispatched-IsAside :
    (job_id : String) (r : DataSubjectRequest) (db : Db) → IsAside db (mark_dispatched job_id r db)
unfolding mark_dispatched
mark_dispatched-IsAside job_id r db = record { same_projects = refl; same_holds = refl }

pub retry_request-IsAside :
    (r : DataSubjectRequest) (db db' : Db) → retry_request r db ≡ some db' → IsAside db db'
unfolding retry_request
retry_request-IsAside r db db' h = record {
  same_projects = ground (arith, h);
  same_holds = ground (arith, h);
}

pub assign-IsAside :
    (organization reviewer actor : String) (c : HumanReviewCase) (db : Db)
    → IsAside db (assign organization c reviewer actor db).1
unfolding assign
assign-IsAside organization reviewer actor c db = record {
  same_projects = ground arith;
  same_holds = ground arith;
}

pub decide_case-IsAside :
    (organization verdict actor : String) (c : HumanReviewCase) (now : ℕ) (db : Db)
    → IsAside db (decide_case organization c verdict actor now db).1
unfolding decide_case
decide_case-IsAside organization verdict actor c now db = record {
  same_projects = ground arith;
  same_holds = ground arith;
}

pub appeal-IsAside :
    (organization actor : String) (c : HumanReviewCase) (db : Db)
    → IsAside db (appeal organization c actor db).1
unfolding appeal
appeal-IsAside organization actor c db = record {
  same_projects = ground arith;
  same_holds = ground arith;
}
