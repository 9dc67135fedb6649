-- ===== src/Lifecycle/Projects.antt =====
-- What a deletion of src/ai_examiner/services/data_lifecycle.py does to the projects.
use mathlib.Core.Path.{subst}
use ai_examiner.Prelude.{
  Bool-cases, exists, exists-keep, keep-empty, Dict, lookup, Result, ok, err, ℕ, String, ◌≡◌, refl,
  ap, ◌∙◌, ◌⊎◌, inl, inr, Bool, true, false, ◌&&◌, Option, none, some, List, [], ◌∷◌, arith, str_eq,
  eq_iff,
}
use ai_examiner.Lifecycle.Deletion.{
  Backend, MemoryDeletion, covers, active_legal_holds, project_objects, after_file, go_on,
  erase_objects, without, finish_project, is_owner, delete_project, finish_identity,
  delete_learner_identity,
}
use ai_examiner.Lifecycle.Model.{
  TargetType, project, learner_identity, Verification, DataSubjectRequest, StoredObject, Db,
  LifecycleError, put_request, is_delete,
}
use ai_examiner.Lifecycle.Execution.{
  can_execute, started, finished, delete_target, complete_if, conclude, execute_deletion,
}

pub lookup-without :
    (gone k : String) (rows : Dict String)
    → str_eq gone k ≡ false
    → lookup k (without gone rows) ≡ lookup k rows
unfolding lookup without
lookup-without gone k [] other = refl
lookup-without gone k ((j, v) ∷ rows) other =
    ground (arith, lookup-without gone k rows other, eq_iff gone k, eq_iff j gone, eq_iff j k)

pub lookup-without_self :
    (gone : String) (rows : Dict String) → lookup gone (without gone rows) ≡ none
unfolding lookup without
lookup-without_self gone [] = refl
lookup-without_self gone ((j, v) ∷ rows) = elim (Bool-cases (str_eq j gone)) [
  | inl same ↦ rw same (lookup-without_self gone rows)
  | inr other ↦ rw (other, other) (lookup-without_self gone rows)
]

go_on-projects :
    (first : Result LifecycleError (Unit {0})) (db db' : Db)
    (others : Result LifecycleError (Unit {0}) × Db)
    → db'.projects ≡ db.projects
    → others.1.projects ≡ db.projects
    → (go_on first db' others).1.projects ≡ db.projects
go_on-projects (err error) db db' others here_same others_same = here_same
go_on-projects (ok u) db db' others here_same others_same = others_same

after_file-projects :
    (backend : Backend) (id : String) (o : StoredObject) (deleted : Option (List String)) (db : Db)
    → (after_file backend id o deleted db).1.projects ≡ db.projects
after_file-projects backend id o none db = refl
after_file-projects backend id o (some files) db =
    elim (Bool-cases (backend.has_file o.object_key files)) [
      | inl there ↦ rw there refl
      | inr gone ↦ rw gone refl
    ]

erase_objects-projects :
    (backend : Backend) (os : Dict StoredObject) (db : Db)
    → (erase_objects backend os db).1.projects ≡ db.projects
unfolding erase_objects
erase_objects-projects backend [] db = refl
erase_objects-projects backend ((id, o) ∷ os) db =
    let round = after_file backend id o (backend.delete_file o.object_key db.files) db in
    let same = after_file-projects backend id o (backend.delete_file o.object_key db.files) db in
    go_on-projects round.0 db round.1 (erase_objects backend os round.1) same
      (erase_objects-projects backend os round.1 ∙ same)

-- What a deletion does to the projects.
abbrev pub Keeps : Db → Db → Type 0
Keeps db db' = db'.projects ≡ db.projects

pub record Drops (organization_id target_id : String) (db db' : Db) : Type 0 where
  pub dropped : db'.projects ≡ without target_id db.projects
  pub owned : is_owner organization_id (lookup target_id db.projects) ≡ true

finish_project-projects :
    (backend : Backend) (id : String) (os : Dict StoredObject)
    (p : Result LifecycleError (Unit {0}) × Db)
    → ((finish_project backend id os p).1.projects ≡ p.1.projects)
      ⊎ ((finish_project backend id os p).1.projects ≡ without id p.1.projects)
finish_project-projects backend id os (err error, db) = inl refl
finish_project-projects backend id os (ok u, db) = inr refl

delete_project-projects :
    (backend : Backend) (organization_id id : String) (db : Db)
    → Keeps db (delete_project backend organization_id id db).1
      ⊎ Drops organization_id id db (delete_project backend organization_id id db).1
unfolding delete_project
delete_project-projects backend organization_id id db =
    let objects = project_objects organization_id id db in
    let same = erase_objects-projects backend objects db in
    elim (Bool-cases (is_owner organization_id (lookup id db.projects))) [
      | inr foreign ↦ rw foreign (inl refl)
      | inl owned ↦
          elim (finish_project-projects backend id objects (erase_objects backend objects db)) [
            | inl kept ↦ rw owned (inl (kept ∙ same))
            | inr dropped ↦
                rw owned (inr (record { dropped = dropped ∙ ap (without id) same; owned = owned }))
          ]
    ]

finish_identity-projects :
    (id : String) (left : Option (Dict ℕ × Dict String)) (db : Db)
    → Keeps db (finish_identity id left db).1
finish_identity-projects id none db = refl
finish_identity-projects id (some (counts, identities)) db = refl

delete_learner_identity-projects :
    (memory : MemoryDeletion) (organization_id id : String) (db : Db)
    → Keeps db (delete_learner_identity memory organization_id id db).1
unfolding delete_learner_identity
delete_learner_identity-projects memory organization_id id db =
    elim (Bool-cases (is_owner organization_id (lookup id db.identities))) [
      | inl owned ↦ rw owned (finish_identity-projects id (memory id db.identities) db)
      | inr foreign ↦ rw foreign refl
    ]

complete_if-projects :
    (verified : Bool) (r : DataSubjectRequest) (db : Db)
    → (complete_if verified r db).1.projects ≡ db.projects
complete_if-projects true r db = refl
complete_if-projects false r db = refl

conclude-projects :
    (r : DataSubjectRequest) (now : ℕ) (p : Result LifecycleError (Dict ℕ × Verification) × Db)
    → (conclude r now p).1.projects ≡ p.1.projects
conclude-projects r now (err error, db) = refl
conclude-projects r now (ok (counts, v), db) =
    complete_if-projects v.verified (finished counts v now r) db

-- A deletion keeps the projects, or drops the one that it is about, which its organization owns
-- and which no hold covers.
pub record IsUnheld (organization_id : String) (r : DataSubjectRequest) (db db' : Db) : Type 0 where
  pub drops : Drops organization_id r.target_id db db'
  pub is_project : r.target_type ≡ project
  pub unheld : exists (covers organization_id project r.target_id (some r.id)) db.holds ≡ false

module _ (backend : Backend) (memory : MemoryDeletion) (organization_id : String) (now : ℕ) where
  delete_target-projects :
      (t : TargetType) (id : String) (db : Db)
      → Keeps db (delete_target backend memory t organization_id id db).1
        ⊎ (Drops organization_id id db (delete_target backend memory t organization_id id db).1
            × (t ≡ project))
  delete_target-projects project id db =
      elim (delete_project-projects backend organization_id id db) [
        | inl kept ↦ inl kept
        | inr drops ↦ inr (drops, refl)
      ]
  delete_target-projects learner_identity id db =
      inl (delete_learner_identity-projects memory organization_id id db)

  pub execute_deletion-projects :
      (r : DataSubjectRequest) (db : Db)
      → Keeps db (execute_deletion backend memory organization_id r now db).1
        ⊎ IsUnheld organization_id r db (execute_deletion backend memory organization_id r now db).1
  unfolding execute_deletion active_legal_holds
  execute_deletion-projects r db =
      let test = covers organization_id r.target_type r.target_id (some r.id) in
      elim (Bool-cases (is_delete r.request_type && can_execute r.status)) [
        | inr not_executable ↦ rw not_executable (inl refl)
        | inl executable ↦ elim (Bool-cases (exists test db.holds)) [
          | inl held ↦
              let (found_hold, (rest, some_hold)) = exists-keep test db.holds held in
              rw (executable, some_hold) (inl refl)
          | inr unheld ↦
              let started_db = put_request (started r) db in
              let deleted =
                delete_target backend memory r.target_type organization_id r.target_id started_db in
              rw (executable, keep-empty test db.holds unheld)
                (elim (delete_target-projects r.target_type r.target_id started_db) [
                  | inl kept ↦ inl (conclude-projects r now deleted ∙ kept)
                  | inr (drops, is_project) ↦ inr (record {
                    drops = record {
                      dropped = conclude-projects r now deleted ∙ drops.dropped;
                      owned = drops.owned;
                    };
                    is_project = is_project;
                    unheld =
                        subst
                          (λ t.
                            exists (covers organization_id t r.target_id (some r.id)) db.holds
                            ≡ false)
                          is_project unheld;
                  })
                ])
        ]
      ]
