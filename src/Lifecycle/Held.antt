-- ===== src/Lifecycle/Held.antt =====
-- A legal hold of src/ai_examiner/services/data_lifecycle.py protects its project for as long as it
-- is not released.
use mathlib.Core.Path.{subst}
use mathlib.Core.Option.{some-injective}
use ai_examiner.Prelude.{
  Bool-cases, or_default, opt_eq, exists, exists-map, exists-append, lookup, Result, ok, err, ℕ,
  String, ◌≡◌, refl, sym, ◌∙◌, inl, inr, Bool, true, false, not, ◌&&◌, Option, none, some, List, [],
  ◌∷◌, arith, str_eq, eq_iff,
}
use ai_examiner.Lifecycle.Model.{
  project, DataSubjectRequest, ScopeType, organization_scope, project_scope, LegalHold, Db,
  LifecycleError,
}
use ai_examiner.Lifecycle.Requests.{
  owned_by, is_approved, hold_target, create_hold, released, release_hold,
}
use ai_examiner.Lifecycle.Deletion.{Backend, MemoryDeletion, covers, is_owner}
use ai_examiner.Lifecycle.Aside.{
  IsAside, create-IsAside, decide-IsAside, cancel-IsAside, enqueue_deletion-IsAside,
  mark_dispatched-IsAside, retry_request-IsAside, assign-IsAside, decide_case-IsAside,
  appeal-IsAside,
}
use ai_examiner.Lifecycle.Frame.{delete_data_subject-view}
use ai_examiner.Lifecycle.Projects.{lookup-without, IsUnheld, execute_deletion-projects}
use ai_examiner.Lifecycle.Execution.{
  execute_deletion, is_blocked, note_failure, class_name, settle_deletion, execute_found,
  delete_data_subject,
}
use ai_examiner.Lifecycle.Steps.{
  Step, creation, decision, cancellation, enqueuing, marking, retrial, execution, hold, release,
  case_assignment, case_decision, case_appeal, Reach, here, next,
}

-- An active hold on a project, or on its whole organization, that is not to be released.
unfoldable pub protects : (String → Bool) → String → String → LegalHold → Bool
protects may_release organization_id project_id h =
    elim (h.scope_type) [
      | organization_scope ↦ true
      | project_scope ↦ opt_eq h.scope_id (some project_id)
      | _ ↦ false
    ]
    && (h.is_active && (str_eq h.organization_id organization_id && not (may_release h.id)))

module _ (backend : Backend) (memory : MemoryDeletion) (may_release : String → Bool)
    (organization_id project_id : String) where
  -- The project is there, and under a hold that is not to be released.
  pub record IsHeld (db : Db) : Type 0 where
    pub has_project : lookup project_id db.projects ≡ some organization_id
    pub has_hold : exists (protects may_release organization_id project_id) db.holds ≡ true

  released_protects :
      (id principal_id reason : String) (now : ℕ)
      → may_release id ≡ true
      → (h : LegalHold) → protects may_release organization_id project_id h ≡ true
      → protects may_release organization_id project_id (released id principal_id reason now h)
        ≡ true
  unfolding protects released covers
  released_protects id principal_id reason now may h p = elim (Bool-cases (str_eq h.id id)) [
    | inr other ↦
        let kept : released id principal_id reason now h ≡ h = rw other refl in
        subst (λ x. protects may_release organization_id project_id x ≡ true) (sym kept) p
    | inl same ↦ absurd (ground (arith, eq_iff h.id id, may, p, same))
  ]

  protects-covers :
      (request_id : String) (h : LegalHold)
      → protects may_release organization_id project_id h ≡ true
      → covers organization_id project project_id (some request_id) h ≡ true
  unfolding protects covers
  protects-covers request_id h p = ground (arith, p)

  exists-imply {ℓ} :
      {A : Type ℓ} (p q : A → Bool) (xs : List A)
      → ((x : A) → p x ≡ true → q x ≡ true)
      → exists p xs ≡ true
      → exists q xs ≡ true
  exists-imply p q [] f h = cc
  exists-imply p q (x ∷ xs) f h = elim (Bool-cases (p x)) [
    | inl pass ↦ rw (f x pass) refl
    | inr fail ↦ ground (arith, exists-imply p q xs f (rw fail at h))
  ]

  unheld_other :
      (owner : String) (r : DataSubjectRequest) (db db' : Db)
      → IsHeld db
      → IsUnheld owner r db db'
      → str_eq r.target_id project_id ≡ false
  unheld_other owner r db db' held u = elim (Bool-cases (str_eq r.target_id project_id)) [
    | inr other ↦ other
    | inl same ↦
        let same_target : r.target_id ≡ project_id = (eq_iff r.target_id project_id).0 same in
        let covered =
          exists-imply (protects may_release organization_id project_id)
            (covers organization_id project project_id (some r.id)) db.holds (protects-covers r.id)
            (held.has_hold) in
        let found =
          subst (λ t. is_owner owner (lookup t db.projects) ≡ true) same_target (u.drops.owned) in
        let owned : str_eq organization_id owner ≡ true = rw (held.has_project) at found in
        let covered_there =
          subst (λ o. exists (covers o project project_id (some r.id)) db.holds ≡ true)
            ((eq_iff organization_id owner).0 owned) covered in
        let unheld =
          subst (λ t. exists (covers owner project t (some r.id)) db.holds ≡ false) same_target
            (u.unheld) in
        absurd (cc (covered_there, unheld))
  ]

  aside-IsHeld : (db db' : Db) → IsAside db db' → IsHeld db → IsHeld db'
  aside-IsHeld db db' same held = record {
    has_project = rw (same.same_projects) (held.has_project);
    has_hold = rw (same.same_holds) (held.has_hold);
  }

  -- The project is there.
  abbrev Has : Db → Type 0
  Has db = lookup project_id db.projects ≡ some organization_id

  note_failure-Has :
      (code : String) (found : Option DataSubjectRequest) (db : Db)
      → Has db
      → Has (note_failure code found db)
  note_failure-Has code none db has = has
  note_failure-Has code (some r) db has = elim (Bool-cases (is_blocked r.status)) [
    | inl waits ↦ rw waits has
    | inr fails ↦ rw fails has
  ]

  settle_deletion-Has :
      (request_id : String) (before : Db) (p : Result LifecycleError DataSubjectRequest × Db)
      → Has before
      → Has p.1
      → Has (settle_deletion request_id before p).1
  settle_deletion-Has request_id before (ok r, db) has has' = has'
  settle_deletion-Has request_id before (err error, db) has has' =
      note_failure-Has (class_name error) (lookup request_id before.requests)
        (record before { files = db.files }) has

  execute_deletion-Has :
      (owner : String) (r : DataSubjectRequest) (now : ℕ) (db : Db)
      → IsHeld db
      → Has (execute_deletion backend memory owner r now db).1
  execute_deletion-Has owner r now db held =
      let db' = (execute_deletion backend memory owner r now db).1 in
      elim (execute_deletion-projects backend memory owner now r db) [
        | inl kept ↦
            subst (λ ps. lookup project_id ps ≡ some organization_id) (sym kept) (held.has_project)
        | inr u ↦
            subst (λ ps. lookup project_id ps ≡ some organization_id) (sym (u.drops.dropped))
              (lookup-without r.target_id project_id db.projects
                  (unheld_other owner r db db' held u)
                ∙ held.has_project)
      ]

  execute_found-Has :
      (owner : String) (found : Option DataSubjectRequest) (now : ℕ) (db : Db)
      → IsHeld db
      → Has (execute_found backend memory owner now found db).1
  execute_found-Has owner none now db held = held.has_project
  execute_found-Has owner (some r) now db held =
      elim (Bool-cases (str_eq r.organization_id owner)) [
        | inl own ↦ rw own (execute_deletion-Has owner r now db held)
        | inr foreign ↦ rw foreign (held.has_project)
      ]

  execution-IsHeld :
      (owner request_id : String) (now : ℕ) (db : Db)
      → IsHeld db
      → IsHeld (delete_data_subject backend memory owner request_id now db).1
  unfolding delete_data_subject
  execution-IsHeld owner request_id now db held = record {
    has_project =
        settle_deletion-Has request_id db
          (execute_found backend memory owner now (lookup request_id db.requests) db)
          (held.has_project) (execute_found-Has owner (lookup request_id db.requests) now db held);
    has_hold =
        rw
          (delete_data_subject-view (λ db. db.holds) (λ db rs ps is os fs. refl) backend memory
            owner now request_id db)
          (held.has_hold);
  }

  create_hold-IsHeld :
      (owner id : String) (scope_type : ScopeType) (scope_id : Option String)
      (reason principal_id : String) (now : ℕ) (db db' : Db)
      → create_hold owner id scope_type scope_id reason principal_id now db ≡ some db'
      → IsHeld db
      → IsHeld db'
  unfolding create_hold
  create_hold-IsHeld owner id scope_type scope_id reason principal_id now db db' h held =
      elim (Bool-cases
        (owned_by owner (hold_target owner scope_type (or_default scope_id "") db))) [
          | inr foreign ↦ absurd (cc (rw foreign at h))
          | inl own ↦ subst IsHeld (some-injective _ db' (rw own at h)) (record {
            has_project = held.has_project;
            has_hold =
                exists-append (protects may_release organization_id project_id) db.holds _
                  (held.has_hold);
          })
        ]

  release_hold-IsHeld :
      (id principal_id reason : String) (now : ℕ) (db db' : Db)
      → may_release id ≡ true
      → release_hold id principal_id reason now db ≡ some db'
      → IsHeld db
      → IsHeld db'
  unfolding release_hold
  release_hold-IsHeld id principal_id reason now db db' may h held =
      elim (Bool-cases (exists (λ hold. str_eq hold.id id && hold.is_active) db.holds)) [
        | inr absent ↦ absurd (cc (rw absent at h))
        | inl present ↦ subst IsHeld (some-injective _ db' (rw present at h)) (record {
          has_project = held.has_project;
          has_hold =
              exists-map (protects may_release organization_id project_id)
                (released id principal_id reason now) db.holds
                (released_protects id principal_id reason now may) (held.has_hold);
        })
      ]

  Step-IsHeld : {db db' : Db} → Step backend memory may_release db db' → IsHeld db → IsHeld db'
  Step-IsHeld {db} (creation o id case_id draft now fresh) =
      aside-IsHeld db _ (create-IsAside o id case_id draft now db)
  Step-IsHeld {db} (decision o key r d now found) = aside-IsHeld db _ (decide-IsAside o r d now db)
  Step-IsHeld {db} (cancellation key r actor reason now found) =
      aside-IsHeld db _ (cancel-IsAside r actor reason now db)
  Step-IsHeld {db} (enqueuing key r found is_approved) =
      aside-IsHeld db _ (enqueue_deletion-IsAside r db)
  Step-IsHeld {db} (marking key job_id r found is_approved) =
      aside-IsHeld db _ (mark_dispatched-IsAside job_id r db)
  Step-IsHeld {db} {db'} (retrial key r found h) =
      aside-IsHeld db db' (retry_request-IsAside r db db' h)
  Step-IsHeld {db} (execution o request_id now enqueued) = execution-IsHeld o request_id now db
  Step-IsHeld {db} {db'} (hold o id scope_type scope_id reason principal now h) =
      create_hold-IsHeld o id scope_type scope_id reason principal now db db' h
  Step-IsHeld {db} {db'} (release id principal reason now may h) =
      release_hold-IsHeld id principal reason now db db' may h
  Step-IsHeld {db} (case_assignment o reviewer actor c) =
      aside-IsHeld db _ (assign-IsAside o reviewer actor c db)
  Step-IsHeld {db} (case_decision o verdict actor c now) =
      aside-IsHeld db _ (decide_case-IsAside o verdict actor c now db)
  Step-IsHeld {db} (case_appeal o actor c) = aside-IsHeld db _ (appeal-IsAside o actor c db)

  -- While a hold on a project or on its organization is not released, the project is never deleted,
  -- whatever requests, decisions, cancellations, deliveries, holds, releases of other holds and
  -- reviews come, in any order and with the worker before or after the route.
  pub Reach-IsHeld :
      {db db' : Db} → Reach backend memory may_release db db' → IsHeld db → IsHeld db'
  Reach-IsHeld here held = held
  Reach-IsHeld (next path step) held = Step-IsHeld step (Reach-IsHeld path held)
