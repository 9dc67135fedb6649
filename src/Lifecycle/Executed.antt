-- ===== src/Lifecycle/Executed.antt =====
-- The execution of a reviewed request of src/ai_examiner/services/data_lifecycle.py keeps the
-- requests controlled.
use ai_examiner.Prelude.{
  Bool-cases, Dict, lookup, Result, ok, err, ℕ, String, ◌≡◌, refl, ◌∙◌, inl, inr, Bool, true, false,
  ◌&&◌, some, List, [], ◌∷◌, str_eq,
}
use ai_examiner.Lifecycle.Model.{
  Verification, DataSubjectRequest, LegalHold, Db, LifecycleError, put_request, is_delete,
}
use ai_examiner.Lifecycle.Deletion.{Backend, MemoryDeletion, active_legal_holds}
use ai_examiner.Lifecycle.Execution.{
  can_execute, held_back, started, finished, delete_target, complete_if, conclude,
  execute_unless_held, execute_deletion, mark_failed, is_blocked, note_failure, class_name,
  settle_deletion, execute_found, delete_data_subject,
}
use ai_examiner.Lifecycle.Frame.{delete_target-view}
use ai_examiner.Lifecycle.Control.{IsReviewed, IsControlled}
use ai_examiner.Lifecycle.Decisions.{Good, put-Good}

-- A later state of a request, of the same type, the same requester and the same reviewer.
pub record IsSame (r r' : DataSubjectRequest) : Type 0 where
  pub same_type : r'.request_type ≡ r.request_type
  pub same_requester : r'.requester_principal_id ≡ r.requester_principal_id
  pub same_reviewer : r'.reviewer_principal_id ≡ r.reviewer_principal_id

module _ (r : DataSubjectRequest) (reviewed : is_delete r.request_type ≡ true → IsReviewed r) where
  pub later-IsControlled :
      (jobs : List String) (r' : DataSubjectRequest) → IsSame r r' → IsControlled jobs r'
  later-IsControlled jobs r' same deletes =
      let v = reviewed (rw (same.same_type) at deletes) in
      inl (record {
        reviewer = v.reviewer;
        reviewed_by = same.same_reviewer ∙ v.reviewed_by;
        other = rw (same.same_requester) (v.other);
      })

  pub put_later-Good :
      (r' : DataSubjectRequest) (db : Db) → IsSame r r' → Good db → Good (put_request r' db)
  put_later-Good r' db same = put-Good r' db (later-IsControlled db.deletion_jobs r' same)

module _ (backend : Backend) (memory : MemoryDeletion) (organization_id : String) (now : ℕ)
    (r : DataSubjectRequest) (reviewed : is_delete r.request_type ≡ true → IsReviewed r) where
  complete_if-Good :
      (verified : Bool) (r' : DataSubjectRequest) (db : Db)
      → IsSame r r'
      → Good db
      → Good (complete_if verified r' db).1
  complete_if-Good true r' db same good = put_later-Good r reviewed r' db same good
  complete_if-Good false r' db same good = good

  conclude-Good :
      (p : Result LifecycleError (Dict ℕ × Verification) × Db)
      → Good p.1
      → Good (conclude r now p).1
  unfolding finished
  conclude-Good (err error, db) good = good
  conclude-Good (ok (counts, v), db) good =
      complete_if-Good v.verified (finished counts v now r) db
        (record { same_type = refl; same_requester = refl; same_reviewer = refl }) good

  delete_target-Good :
      (db : Db)
      → Good db
      → Good (delete_target backend memory r.target_type organization_id r.target_id db).1
  delete_target-Good db good =
      let requests =
        delete_target-view (λ db. db.requests) (λ db ps is os fs. refl) backend memory
          organization_id r.target_type r.target_id db in
      let jobs =
        delete_target-view (λ db. db.deletion_jobs) (λ db ps is os fs. refl) backend memory
          organization_id r.target_type r.target_id db in
      rw (requests, jobs) good

  execute_unless_held-Good :
      (holds : List LegalHold) (db : Db)
      → Good db
      → Good (execute_unless_held backend memory organization_id r now holds db).1
  unfolding held_back
  execute_unless_held-Good [] db good =
      let same : IsSame r (started r) = record {
        same_type = refl;
        same_requester = refl;
        same_reviewer = refl;
      } in
      conclude-Good
        (delete_target backend memory r.target_type organization_id r.target_id
          (put_request (started r) db))
        (delete_target-Good (put_request (started r) db)
          (put_later-Good r reviewed (started r) db same good))
  execute_unless_held-Good (h ∷ holds) db good =
      put_later-Good r reviewed (held_back (h ∷ holds) r) db
        (record { same_type = refl; same_requester = refl; same_reviewer = refl }) good

  execute_deletion-Good :
      (db : Db) → Good db → Good (execute_deletion backend memory organization_id r now db).1
  unfolding execute_deletion
  execute_deletion-Good db good =
      elim (Bool-cases (is_delete r.request_type && can_execute r.status)) [
        | inr not_executable ↦ rw not_executable good
        | inl executable ↦ rw executable (
            execute_unless_held-Good
              (active_legal_holds organization_id r.target_type r.target_id (some r.id) db) db good)
      ]

  note_failure-Good : (code : String) (db : Db) → Good db → Good (note_failure code (some r) db)
  unfolding mark_failed
  note_failure-Good code db good = elim (Bool-cases (is_blocked r.status)) [
    | inl waits ↦ rw waits good
    | inr fails ↦ rw fails (
        put_later-Good r reviewed (mark_failed code r) db
          (record { same_type = refl; same_requester = refl; same_reviewer = refl }) good)
  ]

  settle_deletion-Good :
      (request_id : String) (before : Db) (p : Result LifecycleError DataSubjectRequest × Db)
      → lookup request_id before.requests ≡ some r
      → Good before
      → Good p.1
      → Good (settle_deletion request_id before p).1
  settle_deletion-Good request_id before (ok r', db) found good good' = good'
  settle_deletion-Good request_id before (err error, db) found good good' =
      rw found (note_failure-Good (class_name error) (record before { files = db.files }) good)

  pub delete_data_subject-Good :
      (request_id : String) (db : Db)
      → lookup request_id db.requests ≡ some r
      → Good db
      → Good (delete_data_subject backend memory organization_id request_id now db).1
  unfolding delete_data_subject
  delete_data_subject-Good request_id db found good =
      settle_deletion-Good request_id db
        (execute_found backend memory organization_id now (lookup request_id db.requests) db) found
        good
        (rw found (elim (Bool-cases (str_eq r.organization_id organization_id)) [
          | inl own ↦ rw own (execute_deletion-Good db good)
          | inr foreign ↦ rw foreign good
        ]))
