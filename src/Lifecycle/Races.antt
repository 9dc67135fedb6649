-- ===== src/Lifecycle/Races.antt =====
-- Where the route of main.py, the worker of jobs.py and services/data_lifecycle.py of src/ai_examiner
-- disagree about who may move a request on.
use mathlib.Core.Path.{subst}
use ai_examiner.Prelude.{
  str_eq_refl, Dict, lookup, insert, lookup-insert_self, Result, ok, err, ℕ, String, ◌≡◌, refl, sym,
  ap, ◌∙◌, true, false, ◌&&◌, none, some, [], ◌∷◌, arith,
}
use ai_examiner.Lifecycle.Model.{
  delete_data, project, approved, running, completed, cancelled, Verification, DataSubjectRequest,
  Db, LifecycleError, request_not_executable, put_request, is_delete,
}
use ai_examiner.Lifecycle.Requests.{enqueue_deletion, dispatched, mark_dispatched}
use ai_examiner.Lifecycle.Deletion.{
  Backend, MemoryDeletion, active_legal_holds, project_objects, erase_objects, without,
  remaining_objects, nothing_left, delete_project,
}
use ai_examiner.Lifecycle.Execution.{
  can_execute, started, finished, delete_target, conclude, execute_deletion, mark_failed,
  is_blocked, settle_deletion, execute_found, delete_data_subject,
}
use ai_examiner.Lifecycle.Projects.{lookup-without_self}

-- The data of two databases agree.
pub record IsKept (db db' : Db) : Type 0 where
  pub same_projects : db'.projects ≡ db.projects
  pub same_identities : db'.identities ≡ db.identities
  pub same_objects : db'.objects ≡ db.objects
  pub same_files : db'.files ≡ db.files

-- The counts of a project without stored objects.
abbrev project_counts : Dict ℕ
project_counts = ("projects", 1) ∷ ("objects", 0) ∷ []

module _ (backend : Backend) (memory : MemoryDeletion) (now : ℕ) (r : DataSubjectRequest) (db : Db)
    (found : lookup r.id db.requests ≡ some r) where
  -- A request that may not be executed is marked as failed.
  refused_execution :
      (is_delete r.request_type && can_execute r.status) ≡ false
      → is_blocked r.status ≡ false
      → delete_data_subject backend memory r.organization_id r.id now db
        ≡ (err request_not_executable, put_request (mark_failed "DataLifecycleError" r) db)
  unfolding delete_data_subject execute_deletion
  refused_execution refused not_blocked =
      let executed : execute_found backend memory r.organization_id now (lookup r.id db.requests) db
          ≡ (err request_not_executable, db) =
        rw (found, str_eq_refl r.organization_id, refused) refl in
      let noted : settle_deletion r.id db (err request_not_executable, db)
          ≡ (err request_not_executable, put_request (mark_failed "DataLifecycleError" r) db) =
        rw (found, not_blocked) refl in
      ap (settle_deletion r.id db) executed ∙ noted

  started-objects :
      project_objects r.organization_id r.target_id db ≡ []
      → project_objects r.organization_id r.target_id (put_request (started r) db) ≡ []
  unfolding project_objects
  started-objects h = h

  -- A request that may be executed deletes a project that no hold covers.
  project_execution :
      (is_delete r.request_type && can_execute r.status) ≡ true
      → r.target_type ≡ project
      → lookup r.target_id db.projects ≡ some r.organization_id
      → active_legal_holds r.organization_id project r.target_id (some r.id) db ≡ []
      → project_objects r.organization_id r.target_id db ≡ []
      → (delete_data_subject backend memory r.organization_id r.id now db).1
        ≡ put_request
            (finished project_counts nothing_left now r)
            (record (put_request (started r) db) { projects = without r.target_id db.projects })
  unfolding delete_data_subject execute_deletion delete_project erase_objects remaining_objects
  project_execution executable is_project own no_holds no_objects =
      let before = put_request (started r) db in
      let answer : Result LifecycleError (Dict ℕ × Verification) × Db = (
        ok (project_counts, nothing_left),
        record before { projects = without r.target_id db.projects },
      ) in
      let no_objects_before : project_objects r.organization_id r.target_id before ≡ [] =
        started-objects no_objects in
      let deleted : delete_target backend memory project r.organization_id r.target_id before
          ≡ answer =
        rw
          (
            own,
            str_eq_refl r.organization_id,
            no_objects_before,
            lookup-without_self r.target_id db.projects,
          )
          refl in
      let deleted_target =
        subst (λ t. delete_target backend memory t r.organization_id r.target_id before ≡ answer)
          (sym is_project) deleted in
      let no_holds_here =
        subst (λ t. active_legal_holds r.organization_id t r.target_id (some r.id) db ≡ [])
          (sym is_project) no_holds in
      let executed : execute_found backend memory r.organization_id now (lookup r.id db.requests) db
          ≡ conclude r now answer =
        rw (found, str_eq_refl r.organization_id, executable, no_holds_here, deleted_target) refl in
      ap (λ p. (settle_deletion r.id db p).1) executed

module _ (backend : Backend) (memory : MemoryDeletion) (now : ℕ) (r : DataSubjectRequest) (db : Db)
    (found : lookup r.id db.requests ≡ some r) where
  -- When the route goes on before the worker has read an approved deletion request, which it has
  -- just enqueued, the worker refuses the request, marks it as failed and deletes nothing.
  pub dispatch_race :
      (job_id : String)
      → r.status ≡ approved
      → let marked = mark_dispatched job_id r (enqueue_deletion r db) in
        let (answer, db') = delete_data_subject backend memory r.organization_id r.id now marked in
        (answer ≡ err request_not_executable)
        × IsKept db db'
        × (lookup r.id db'.requests ≡ some (mark_failed "DataLifecycleError" (dispatched job_id r)))
  unfolding mark_dispatched enqueue_deletion mark_failed
  dispatch_race job_id approval =
      let row = dispatched job_id r in
      let marked = mark_dispatched job_id r (enqueue_deletion r db) in
      let is_running : row.status ≡ running = rw approval refl in
      let found_row : lookup r.id marked.requests ≡ some row =
        lookup-insert_self r.id row db.requests in
      let refusal =
        refused_execution backend memory now row marked found_row (rw is_running (ground arith))
          (rw is_running refl) in
      rw refusal (
        refl,
        record {
          same_projects = refl;
          same_identities = refl;
          same_objects = refl;
          same_files = refl;
        },
        lookup-insert_self r.id (mark_failed "DataLifecycleError" row) marked.requests,
      )

  -- A cancelled deletion request whose job the worker runs twice is executed by the second run: if
  -- no hold covers the project and it has no stored object, the project is gone and the request
  -- reads as completed.
  pub cancelled_revived :
      r.status ≡ cancelled
      → r.request_type ≡ delete_data
      → r.target_type ≡ project
      → lookup r.target_id db.projects ≡ some r.organization_id
      → active_legal_holds r.organization_id project r.target_id (some r.id) db ≡ []
      → project_objects r.organization_id r.target_id db ≡ []
      → let first = (delete_data_subject backend memory r.organization_id r.id now db).1 in
        let second = (delete_data_subject backend memory r.organization_id r.id now first).1 in
        (lookup r.target_id second.projects ≡ none)
        × ((row : DataSubjectRequest) × (lookup r.id second.requests ≡ some row)
            × (row.status ≡ completed))
  unfolding mark_failed active_legal_holds project_objects finished
  cancelled_revived is_cancelled deletes is_project own no_holds no_objects =
      let row = mark_failed "DataLifecycleError" r in
      let first = put_request row db in
      let refusal =
        refused_execution backend memory now r db found (rw is_cancelled (ground arith))
          (rw is_cancelled refl) in
      let executed =
        project_execution backend memory now row first (lookup-insert_self r.id row db.requests)
          (rw deletes refl) is_project own no_holds no_objects in
      let last = finished project_counts nothing_left now row in
      rw (refusal, executed)
        (
          lookup-without_self r.target_id db.projects,
          (last, lookup-insert_self r.id last (insert r.id (started row) first.requests), refl),
        )
