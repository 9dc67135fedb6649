-- ===== src/Lifecycle/DualControl.antt =====
-- No deletion without two principals, along every path of src/ai_examiner/services/data_lifecycle.py.
use mathlib.Core.Path.{subst}
use mathlib.Core.Option.{some-injective}
use ai_examiner.Prelude.{
  Bool-cases, or_default, Option-cases, exists, contains, lookup, ℕ, String, ◌≡◌, refl, sym, inl,
  inr, Bool, true, false, not, ◌&&◌, Option, some, [], arith, str_eq,
}
use ai_examiner.Lifecycle.Model.{
  DataSubjectRequest, ScopeType, HumanReviewCase, Db, put_request, is_delete,
}
use ai_examiner.Lifecycle.Reviews.{assign, decide_case, appeal}
use ai_examiner.Lifecycle.Requests.{
  owned_by, enqueue_deletion, dispatched, mark_dispatched, can_try_again, reopened, retry_request,
  hold_target, create_hold, release_hold,
}
use ai_examiner.Lifecycle.Deletion.{Backend, MemoryDeletion}
use ai_examiner.Lifecycle.Execution.{delete_data_subject}
use ai_examiner.Lifecycle.Steps.{
  Step, creation, decision, cancellation, enqueuing, marking, retrial, execution, hold, release,
  case_assignment, case_decision, case_appeal, Reach, here, next,
}
use ai_examiner.Lifecycle.Control.{IsReviewed, is_idle, empty-AreControlled, enqueue-AreControlled}
use ai_examiner.Lifecycle.Decisions.{
  Good, create-Good, decide-Good, cancel-Good, approved-IsReviewed, queued-IsReviewed,
}
use ai_examiner.Lifecycle.Executed.{IsSame, put_later-Good, delete_data_subject-Good}

module _ (backend : Backend) (memory : MemoryDeletion) (may_release : String → Bool) where
  enqueued-IsReviewed :
      (request_id : String) (r : DataSubjectRequest) (db : Db)
      → Good db
      → lookup request_id db.requests ≡ some r
      → contains db.deletion_jobs request_id ≡ true
      → is_delete r.request_type ≡ true
      → IsReviewed r
  enqueued-IsReviewed request_id r db good found queued =
      queued-IsReviewed db.deletion_jobs r (good.controlled request_id r found) (
        subst (λ k. contains db.deletion_jobs k ≡ true) (sym (good.keyed request_id r found))
          queued)

  execution-Good :
      (organization_id request_id : String) (now : ℕ) (db : Db)
      → contains db.deletion_jobs request_id ≡ true
      → Good db
      → Good (delete_data_subject backend memory organization_id request_id now db).1
  execution-Good organization_id request_id now db queued good =
      elim (Option-cases (lookup request_id db.requests)) [
        | inl gone ↦ let there = good.known request_id queued in absurd (cc (rw gone at there))
        | inr (r, found) ↦
            delete_data_subject-Good backend memory organization_id now r
              (enqueued-IsReviewed request_id r db good found queued) request_id db found good
      ]

  approved-Good :
      (key : String) (r r' : DataSubjectRequest) (db : Db)
      → lookup key db.requests ≡ some r
      → str_eq r.final_decision "approved" ≡ true
      → IsSame r r'
      → Good db
      → Good (put_request r' db)
  approved-Good key r r' db found approval same good =
      put_later-Good r
        (approved-IsReviewed db.deletion_jobs r (good.controlled key r found) approval) r' db same
        good

  retrial-Good :
      (key : String) (r : DataSubjectRequest) (db db' : Db)
      → lookup key db.requests ≡ some r
      → retry_request r db ≡ some db'
      → Good db
      → Good db'
  unfolding retry_request
  retrial-Good key r db db' found h good =
      elim (Bool-cases (str_eq r.final_decision "approved" && can_try_again r.status)) [
        | inr refused ↦ absurd (cc (rw refused at h))
        | inl can ↦ subst Good (some-injective _ db' (rw can at h)) (
            approved-Good key r (reopened r) db found (ground (arith, can))
              (record { same_type = refl; same_requester = refl; same_reviewer = refl }) good)
      ]

  marking-Good :
      (key job_id : String) (r : DataSubjectRequest) (db : Db)
      → lookup key db.requests ≡ some r
      → str_eq r.final_decision "approved" ≡ true
      → Good db
      → Good (mark_dispatched job_id r db)
  unfolding mark_dispatched
  marking-Good key job_id r db found approval =
      approved-Good key r (dispatched job_id r) db found approval
        (record { same_type = refl; same_requester = refl; same_reviewer = refl })

  enqueuing-Good :
      (key : String) (r : DataSubjectRequest) (db : Db)
      → lookup key db.requests ≡ some r
      → str_eq r.final_decision "approved" ≡ true
      → Good db
      → Good (enqueue_deletion r db)
  unfolding enqueue_deletion
  enqueuing-Good key r db found approval good =
      enqueue-AreControlled db.requests db.deletion_jobs good key r found approval

  -- Requests and jobs are as they were.
  abbrev IsBeside : Db → Db → Type 0
  IsBeside db db' = (db'.requests ≡ db.requests) × (db'.deletion_jobs ≡ db.deletion_jobs)

  beside-Good : (db db' : Db) → IsBeside db db' → Good db → Good db'
  beside-Good db db' (requests, jobs) good = rw (requests, jobs) good

  create_hold-IsBeside :
      (owner id : String) (scope_type : ScopeType) (scope_id : Option String)
      (reason principal_id : String) (now : ℕ) (db db' : Db)
      → create_hold owner id scope_type scope_id reason principal_id now db ≡ some db'
      → IsBeside db db'
  unfolding create_hold
  create_hold-IsBeside owner id scope_type scope_id reason principal_id now db db' h =
      elim (Bool-cases
        (owned_by owner (hold_target owner scope_type (or_default scope_id "") db))) [
          | inr foreign ↦ absurd (cc (rw foreign at h))
          | inl own ↦ subst (IsBeside db) (some-injective _ db' (rw own at h)) (refl, refl)
        ]

  release_hold-IsBeside :
      (id principal_id reason : String) (now : ℕ) (db db' : Db)
      → release_hold id principal_id reason now db ≡ some db'
      → IsBeside db db'
  unfolding release_hold
  release_hold-IsBeside id principal_id reason now db db' h =
      elim (Bool-cases (exists (λ hold. str_eq hold.id id && hold.is_active) db.holds)) [
        | inr absent ↦ absurd (cc (rw absent at h))
        | inl present ↦ subst (IsBeside db) (some-injective _ db' (rw present at h)) (refl, refl)
      ]

  assign-IsBeside :
      (organization reviewer actor : String) (c : HumanReviewCase) (db : Db)
      → IsBeside db (assign organization c reviewer actor db).1
  unfolding assign
  assign-IsBeside organization reviewer actor c db = (ground arith, ground arith)

  decide_case-IsBeside :
      (organization verdict actor : String) (c : HumanReviewCase) (now : ℕ) (db : Db)
      → IsBeside db (decide_case organization c verdict actor now db).1
  unfolding decide_case
  decide_case-IsBeside organization verdict actor c now db = (ground arith, ground arith)

  appeal-IsBeside :
      (organization actor : String) (c : HumanReviewCase) (db : Db)
      → IsBeside db (appeal organization c actor db).1
  unfolding appeal
  appeal-IsBeside organization actor c db = (ground arith, ground arith)

  Step-Good : {db db' : Db} → Step backend memory may_release db db' → Good db → Good db'
  Step-Good {db} (creation o id case_id draft now fresh) =
      create-Good o id case_id draft now db fresh
  Step-Good {db} (decision o key r d now found) = decide-Good o r d now db
  Step-Good {db} (cancellation key r actor reason now found) =
      cancel-Good key r actor reason now db found
  Step-Good {db} (enqueuing key r found approval) = enqueuing-Good key r db found approval
  Step-Good {db} (marking key job_id r found approval) = marking-Good key job_id r db found approval
  Step-Good {db} {db'} (retrial key r found h) = retrial-Good key r db db' found h
  Step-Good {db} (execution o request_id now queued) = execution-Good o request_id now db queued
  Step-Good {db} {db'} (hold o id scope_type scope_id reason principal now h) =
      beside-Good db db'
        (create_hold-IsBeside o id scope_type scope_id reason principal now db db' h)
  Step-Good {db} {db'} (release id principal reason now may h) =
      beside-Good db db' (release_hold-IsBeside id principal reason now db db' h)
  Step-Good {db} (case_assignment o reviewer actor c) =
      beside-Good db (assign o c reviewer actor db).1 (assign-IsBeside o reviewer actor c db)
  Step-Good {db} (case_decision o verdict actor c now) =
      beside-Good db (decide_case o c verdict actor now db).1
        (decide_case-IsBeside o verdict actor c now db)
  Step-Good {db} (case_appeal o actor c) =
      beside-Good db (appeal o c actor db).1 (appeal-IsBeside o actor c db)

  Reach-Good : {db db' : Db} → Reach backend memory may_release db db' → Good db → Good db'
  Reach-Good here good = good
  Reach-Good (next path step) good = Step-Good step (Reach-Good path good)

  -- Starting without requests and jobs, whatever operations come in any order, a deletion request
  -- that is neither pending nor cancelled, or for which a job was ever enqueued, has been reviewed by
  -- a principal other than its requester.
  pub Reach-IsReviewed :
      {db db' : Db} (key : String) (r : DataSubjectRequest)
      → Reach backend memory may_release db db'
      → db.requests ≡ []
      → db.deletion_jobs ≡ []
      → lookup key db'.requests ≡ some r
      → is_delete r.request_type ≡ true
      → (is_idle r.status && not (contains db'.deletion_jobs r.id)) ≡ false
      → IsReviewed r
  Reach-IsReviewed {db} {db'} key r path no_requests no_jobs found deletes touched =
      let start : Good db = rw (no_requests, no_jobs) empty-AreControlled in
      let good = Reach-Good path start in
      elim (good.controlled key r found deletes) [
        | inl v ↦ v
        | inr u ↦
            let idle = u.idle in
            let unqueued = u.unqueued in absurd (cc (rw (idle, unqueued) at touched))
      ]
