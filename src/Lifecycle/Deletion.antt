-- ===== src/Lifecycle/Deletion.antt =====
-- Legal holds and the execution of a deletion: `active_legal_holds` and `execute_deletion` of
-- src/ai_examiner/services/data_lifecycle.py, `StorageService.delete` of services/storage.py, and the
-- handler `_delete_data_subject` of jobs.py. The store's backend and
-- `MemoryControlService.execute_deletion` are arguments.
use ai_examiner.Prelude.{
  ◌==◌, if◌then◌else◌, is_some, opt_eq, length, keep, Dict, lookup, insert, Result, ok, err, ℕ, suc,
  String, Bool, true, false, not, ◌&&◌, ◌||◌, Option, none, some, List, [], ◌∷◌, str_eq,
}
use ai_examiner.Lifecycle.Model.{
  TargetType, project, learner_identity, Verification, ScopeType, organization_scope, project_scope,
  learner_identity_scope, request_scope, LegalHold, StoredObject, Db, LifecycleError,
  object_delete_verification_failed, storage_error, memory_error,
}

-- A storage backend on the keys that the store has: a deletion that raises is none.
pub record Backend : Type 0 where
  pub delete_file : String → List String → Option (List String)
  pub has_file : String → List String → Bool

-- The deletion of a learner's memory together with the identity: the counts and the identities that
-- are left, or none when it raises.
abbrev pub MemoryDeletion : Type 0
MemoryDeletion = String → Dict String → Option (Dict ℕ × Dict String)

abbrev pub is_scope : TargetType → ScopeType → Bool
is_scope project project_scope = true
is_scope learner_identity learner_identity_scope = true
is_scope _ _ = false

abbrev pub is_organization_scope : ScopeType → Bool
is_organization_scope organization_scope = true
is_organization_scope _ = false

abbrev pub is_request_scope : ScopeType → Bool
is_request_scope request_scope = true
is_request_scope _ = false

-- The tests of `active_legal_holds` on a hold, with a target and with a request.
unfoldable pub covers : String → TargetType → String → Option String → LegalHold → Bool
covers organization_id target_type target_id request_id hold =
    (str_eq hold.organization_id organization_id && hold.is_active)
    && (is_organization_scope hold.scope_type
        || ((is_scope target_type hold.scope_type && opt_eq hold.scope_id (some target_id))
            || (is_some request_id
                && (is_request_scope hold.scope_type && opt_eq hold.scope_id request_id))))

unfoldable pub active_legal_holds :
    String → TargetType → String → Option String → Db → List LegalHold
active_legal_holds organization_id target_type target_id request_id db =
    keep (covers organization_id target_type target_id request_id) db.holds

-- The active objects of a project, with their identifiers.
unfoldable pub project_objects : String → String → Db → Dict StoredObject
project_objects organization_id project_id db =
    keep
      (λ entry.
        str_eq entry.1.organization_id organization_id
        && (opt_eq entry.1.project_id (some project_id) && entry.1.is_active))
      db.objects

abbrev pub erased_object : StoredObject → StoredObject
erased_object o = record o { is_active = false; project_id = none }

abbrev pub after_file :
    Backend
    → String
    → StoredObject
    → Option (List String)
    → Db
    → Result LifecycleError (Unit {0}) × Db
after_file backend id o none db = (err storage_error, db)
after_file backend id o (some files) db =
    let db' : Db = record db { files = files; objects = insert id (erased_object o) db.objects } in
    if backend.has_file o.object_key files
    then (err object_delete_verification_failed, db')
    else (ok tt, db')

-- The rest of the loop, unless this round has raised.
abbrev pub go_on :
    Result LifecycleError (Unit {0})
    → Db
    → Result LifecycleError (Unit {0}) × Db
    → Result LifecycleError (Unit {0}) × Db
go_on (err error) db others = (err error, db)
go_on (ok _) db others = others

-- The loop over the objects of a project.
unfoldable pub erase_objects :
    Backend → Dict StoredObject → Db → Result LifecycleError (Unit {0}) × Db
erase_objects backend [] db = (ok tt, db)
erase_objects backend ((id, o) ∷ rest) db =
    let (first, db') = after_file backend id o (backend.delete_file o.object_key db.files) db in
    let others = erase_objects backend rest db' in go_on first db' others

-- The rows but the one of a key.
unfoldable pub without : String → Dict String → Dict String
without id rows = keep (λ entry. not (str_eq entry.0 id)) rows

-- `1` for each deleted object that the store still has.
unfoldable pub remaining_objects : Backend → Dict StoredObject → Db → ℕ
remaining_objects backend [] db = 0
remaining_objects backend ((id, o) ∷ rest) db =
    let others = remaining_objects backend rest db in
    elim (lookup id db.objects) [
      | none ↦ others
      | some stored ↦ if backend.has_file stored.object_key db.files then suc others else others
    ]

abbrev pub count_of : Option String → ℕ
count_of none = 0
count_of (some _) = 1

abbrev pub counted : Dict ℕ × Verification → Db → Result LifecycleError (Dict ℕ × Verification) × Db
counted answer db = (ok answer, db)

abbrev pub finish_project :
    Backend
    → String
    → Dict StoredObject
    → Result LifecycleError (Unit {0}) × Db
    → Result LifecycleError (Dict ℕ × Verification) × Db
finish_project backend project_id erased (err error, db) = (err error, db)
finish_project backend project_id erased (ok _, db) =
    let db' : Db = record db { projects = without project_id db.projects } in
    let relational = count_of (lookup project_id db'.projects) in
    let remaining = remaining_objects backend erased db' in
    counted
      (
        ("projects", 1) ∷ ("objects", length erased) ∷ [],
        record {
          verified = relational == 0 && remaining == 0;
          relational_remaining = relational;
          objects_remaining = remaining;
          legal_hold_ids = [];
        },
      )
      db'

abbrev pub nothing_left : Verification
nothing_left = record {
  verified = true;
  relational_remaining = 0;
  objects_remaining = 0;
  legal_hold_ids = [];
}

abbrev pub is_owner : String → Option String → Bool
is_owner organization_id none = false
is_owner organization_id (some owner) = str_eq owner organization_id

unfoldable pub delete_project :
    Backend → String → String → Db → Result LifecycleError (Dict ℕ × Verification) × Db
delete_project backend organization_id project_id db =
    let objects = project_objects organization_id project_id db in
    if is_owner organization_id (lookup project_id db.projects)
    then finish_project backend project_id objects (erase_objects backend objects db)
    else counted (("projects", 0) ∷ ("objects", 0) ∷ [], nothing_left) db

abbrev pub finish_identity :
    String → Option (Dict ℕ × Dict String) → Db → Result LifecycleError (Dict ℕ × Verification) × Db
finish_identity identity_id none db = (err memory_error, db)
finish_identity identity_id (some (counts, identities)) db =
    let db' : Db = record db { identities = identities } in
    let relational = count_of (lookup identity_id identities) in
    counted
      (
        counts,
        record {
          verified = relational == 0;
          relational_remaining = relational;
          objects_remaining = 0;
          legal_hold_ids = [];
        },
      )
      db'

unfoldable pub delete_learner_identity :
    MemoryDeletion → String → String → Db → Result LifecycleError (Dict ℕ × Verification) × Db
delete_learner_identity memory organization_id identity_id db =
    if is_owner organization_id (lookup identity_id db.identities)
    then finish_identity identity_id (memory identity_id db.identities) db
    else counted (("identities", 0) ∷ [], nothing_left) db
