-- ===== src/Lifecycle/Frame.antt =====
-- What an execution of a deletion (src/ai_examiner/services/data_lifecycle.py) does not touch.
use ai_examiner.Prelude.{
  Bool-cases, Dict, lookup, insert, Result, ok, err, ℕ, String, ◌≡◌, refl, ◌∙◌, inl, inr, Bool,
  true, false, ◌&&◌, Option, none, some, List, [], ◌∷◌, str_eq,
}
use ai_examiner.Lifecycle.Model.{
  TargetType, project, learner_identity, Verification, DataSubjectRequest, LegalHold, StoredObject,
  Db, LifecycleError, put_request, is_delete,
}
use ai_examiner.Lifecycle.Deletion.{
  Backend, MemoryDeletion, active_legal_holds, project_objects, erased_object, after_file, go_on,
  erase_objects, without, finish_project, is_owner, delete_project, finish_identity,
  delete_learner_identity,
}
use ai_examiner.Lifecycle.Execution.{
  can_execute, held_back, started, finished, delete_target, complete_if, conclude,
  execute_unless_held, execute_deletion, mark_failed, is_blocked, note_failure, class_name,
  settle_deletion, execute_found, delete_data_subject,
}

-- A view of the database that does not depend on the tables that a deletion writes.
abbrev pub IsApart {ℓ} : {A : Type ℓ} → (Db → A) → Type ℓ
IsApart view =
    (db : Db) (requests : Dict DataSubjectRequest) (projects identities : Dict String)
    (objects : Dict StoredObject) (files : List String)
    → view (record db {
      requests = requests;
      projects = projects;
      identities = identities;
      objects = objects;
      files = files;
    })
      ≡ view db

-- The same, where the requests may count.
abbrev pub IsApartFromData {ℓ} : {A : Type ℓ} → (Db → A) → Type ℓ
IsApartFromData view =
    (db : Db) (projects identities : Dict String) (objects : Dict StoredObject)
    (files : List String)
    → view (record db {
      projects = projects;
      identities = identities;
      objects = objects;
      files = files;
    })
      ≡ view db

module _ {ℓ} {A : Type ℓ} (view : Db → A) (apart : IsApartFromData view) (backend : Backend)
    (memory : MemoryDeletion) (organization_id : String) where
  go_on-view :
      (first : Result LifecycleError (Unit {0})) (db db' : Db)
      (others : Result LifecycleError (Unit {0}) × Db)
      → view db' ≡ view db
      → view others.1 ≡ view db
      → view (go_on first db' others).1 ≡ view db
  go_on-view (err error) db db' others now_same others_same = now_same
  go_on-view (ok u) db db' others now_same others_same = others_same

  after_file-view :
      (id : String) (o : StoredObject) (deleted : Option (List String)) (db : Db)
      → view (after_file backend id o deleted db).1 ≡ view db
  after_file-view id o none db = refl
  after_file-view id o (some files) db =
      let objects = insert id (erased_object o) db.objects in
      let same = apart db db.projects db.identities objects files in
      elim (Bool-cases (backend.has_file o.object_key files)) [
        | inl there ↦ rw there same
        | inr gone ↦ rw gone same
      ]

  erase_objects-view :
      (os : Dict StoredObject) (db : Db) → view (erase_objects backend os db).1 ≡ view db
  unfolding erase_objects
  erase_objects-view [] db = refl
  erase_objects-view ((id, o) ∷ os) db =
      let round = after_file backend id o (backend.delete_file o.object_key db.files) db in
      let same = after_file-view id o (backend.delete_file o.object_key db.files) db in
      go_on-view round.0 db round.1 (erase_objects backend os round.1) same
        (erase_objects-view os round.1 ∙ same)

  finish_project-view :
      (id : String) (os : Dict StoredObject) (p : Result LifecycleError (Unit {0}) × Db)
      → view (finish_project backend id os p).1 ≡ view p.1
  finish_project-view id os (err error, db) = refl
  finish_project-view id os (ok u, db) =
      apart db (without id db.projects) db.identities db.objects db.files

  finish_identity-view :
      (id : String) (left : Option (Dict ℕ × Dict String)) (db : Db)
      → view (finish_identity id left db).1 ≡ view db
  finish_identity-view id none db = refl
  finish_identity-view id (some (counts, identities)) db =
      apart db db.projects identities db.objects db.files

  pub delete_target-view :
      (t : TargetType) (id : String) (db : Db)
      → view (delete_target backend memory t organization_id id db).1 ≡ view db
  unfolding delete_project delete_learner_identity
  delete_target-view project id db =
      let objects = project_objects organization_id id db in
      elim (Bool-cases (is_owner organization_id (lookup id db.projects))) [
        | inl own ↦ rw own (
            finish_project-view id objects (erase_objects backend objects db)
            ∙ erase_objects-view objects db)
        | inr foreign ↦ rw foreign refl
      ]
  delete_target-view learner_identity id db =
      elim (Bool-cases (is_owner organization_id (lookup id db.identities))) [
        | inl own ↦ rw own (finish_identity-view id (memory id db.identities) db)
        | inr foreign ↦ rw foreign refl
      ]

module _ {ℓ} {A : Type ℓ} (view : Db → A) (apart : IsApart view) (backend : Backend)
    (memory : MemoryDeletion) (organization_id : String) (now : ℕ) where
  put_request-view : (r : DataSubjectRequest) (db : Db) → view (put_request r db) ≡ view db
  put_request-view r db =
      apart db (insert r.id r db.requests) db.projects db.identities db.objects db.files

  complete_if-view :
      (verified : Bool) (r : DataSubjectRequest) (db : Db)
      → view (complete_if verified r db).1 ≡ view db
  complete_if-view true r db = put_request-view r db
  complete_if-view false r db = refl

  conclude-view :
      (r : DataSubjectRequest) (p : Result LifecycleError (Dict ℕ × Verification) × Db)
      → view (conclude r now p).1 ≡ view p.1
  conclude-view r (err error, db) = refl
  conclude-view r (ok (counts, v), db) = complete_if-view v.verified (finished counts v now r) db

  execute_unless_held-view :
      (r : DataSubjectRequest) (holds : List LegalHold) (db : Db)
      → view (execute_unless_held backend memory organization_id r now holds db).1 ≡ view db
  execute_unless_held-view r [] db =
      let started_db = put_request (started r) db in
      conclude-view r
        (delete_target backend memory r.target_type organization_id r.target_id started_db)
      ∙ (delete_target-view view (λ db ps is os fs. apart db db.requests ps is os fs) backend memory
            organization_id r.target_type r.target_id started_db
          ∙ put_request-view (started r) db)
  execute_unless_held-view r (h ∷ holds) db = put_request-view (held_back (h ∷ holds) r) db

  execute_deletion-view :
      (r : DataSubjectRequest) (db : Db)
      → view (execute_deletion backend memory organization_id r now db).1 ≡ view db
  unfolding execute_deletion
  execute_deletion-view r db =
      elim (Bool-cases (is_delete r.request_type && can_execute r.status)) [
        | inl executable ↦ rw executable (
            execute_unless_held-view r
              (active_legal_holds organization_id r.target_type r.target_id (some r.id) db) db)
        | inr not_executable ↦ rw not_executable refl
      ]

  note_failure-view :
      (code : String) (found : Option DataSubjectRequest) (db : Db)
      → view (note_failure code found db) ≡ view db
  note_failure-view code none db = refl
  note_failure-view code (some r) db = elim (Bool-cases (is_blocked r.status)) [
    | inl waits ↦ rw waits refl
    | inr fails ↦ rw fails (put_request-view (mark_failed code r) db)
  ]

  settle_deletion-view :
      (request_id : String) (before : Db) (p : Result LifecycleError DataSubjectRequest × Db)
      → view p.1 ≡ view before
      → view (settle_deletion request_id before p).1 ≡ view before
  settle_deletion-view request_id before (ok r, db) same = same
  settle_deletion-view request_id before (err error, db) same =
      note_failure-view (class_name error) (lookup request_id before.requests)
        (record before { files = db.files })
      ∙ apart before before.requests before.projects before.identities before.objects db.files

  execute_found-view :
      (found : Option DataSubjectRequest) (db : Db)
      → view (execute_found backend memory organization_id now found db).1 ≡ view db
  execute_found-view none db = refl
  execute_found-view (some r) db = elim (Bool-cases (str_eq r.organization_id organization_id)) [
    | inl own ↦ rw own (execute_deletion-view r db)
    | inr foreign ↦ rw foreign refl
  ]

  -- The handler touches nothing else.
  pub delete_data_subject-view :
      (request_id : String) (db : Db)
      → view (delete_data_subject backend memory organization_id request_id now db).1 ≡ view db
  unfolding delete_data_subject
  delete_data_subject-view request_id db =
      settle_deletion-view request_id db
        (execute_found backend memory organization_id now (lookup request_id db.requests) db)
        (execute_found-view (lookup request_id db.requests) db)
