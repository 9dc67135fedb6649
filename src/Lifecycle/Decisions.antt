-- ===== src/Lifecycle/Decisions.antt =====
-- Which operations of src/ai_examiner/services/data_lifecycle.py keep the requests controlled.
use ai_examiner.Prelude.{
  Bool-cases, opt_eq, Option-cases, contains, lookup, ℕ, String, ◌≡◌, refl, inl, inr, true, false,
  ◌&&◌, ◌||◌, Option, none, some, List, arith, str_eq,
}
use ai_examiner.Lifecycle.Model.{
  DataSubjectRequest, HumanReviewCase, Db, put_request, is_delete, same_request_type,
  same_target_type,
}
use ai_examiner.Lifecycle.Reviews.{create_case, is_ended, decide_case}
use ai_examiner.Lifecycle.Requests.{
  owned_by, target_of, RequestDraft, find_request, new_request, create, Decision, decided, case_of,
  decide_found, is_requested, decide, can_cancel, withdrawn, cancel, is_approved,
}
use ai_examiner.Lifecycle.Control.{IsReviewed, IsControlled, AreControlled, insert-AreControlled}

abbrev pub Good : Db → Type 0
Good db = AreControlled db.requests db.deletion_jobs

pub put-Good :
    (r : DataSubjectRequest) (db : Db)
    → IsControlled db.deletion_jobs r
    → Good db
    → Good (put_request r db)
put-Good r db c good = insert-AreControlled db.requests db.deletion_jobs good r c

new_request-IsControlled :
    (organization_id id case_id : String) (draft : RequestDraft) (now : ℕ) (db : Db)
    → Good db
    → lookup id db.requests ≡ none
    → IsControlled db.deletion_jobs (new_request organization_id id case_id draft now)
new_request-IsControlled organization_id id case_id draft now db good fresh deletes = inr (record {
  idle = refl;
  unapproved = refl;
  unqueued = elim (Bool-cases (contains db.deletion_jobs id)) [
    | inr absent ↦ absent
    | inl queued ↦ let there = good.known id queued in absurd (cc (rw fresh at there))
  ];
})

pub create-Good :
    (organization_id id case_id : String) (draft : RequestDraft) (now : ℕ) (db : Db)
    → lookup id db.requests ≡ none
    → Good db
    → Good (create organization_id id case_id draft now db).1
unfolding create create_case
create-Good organization_id id case_id draft now db fresh good =
    elim (Bool-cases (owned_by organization_id (target_of draft.target_type draft.target_id db))) [
      | inr foreign ↦ rw foreign good
      | inl own ↦ elim (Option-cases (find_request organization_id draft db.requests)) [
        | inl absent ↦
            rw (own, absent)
              (put-Good (new_request organization_id id case_id draft now) db
                (new_request-IsControlled organization_id id case_id draft now db good fresh) good)
        | inr (existing, found) ↦
            elim (Bool-cases (
              same_request_type existing.request_type draft.request_type
              && (same_target_type existing.target_type draft.target_type
                  && str_eq existing.target_id draft.target_id))) [
                    | inl same ↦ rw (own, found, same) good
                    | inr conflict ↦ rw (own, found, conflict) good
                  ]
      ]
    ]

decided-IsControlled :
    (d : Decision) (now : ℕ) (r : DataSubjectRequest) (jobs : List String)
    → (is_delete r.request_type && str_eq d.reviewer_id r.requester_principal_id) ≡ false
    → IsControlled jobs (decided d now r)
unfolding decided
decided-IsControlled d now r jobs other deletes = inl (record {
  reviewer = d.reviewer_id;
  reviewed_by = refl;
  other = ground (arith, other, deletes);
})

decide_found-Good :
    (organization_id : String) (d : Decision) (now : ℕ) (r : DataSubjectRequest)
    (c : Option HumanReviewCase) (db : Db)
    → (is_delete r.request_type && str_eq d.reviewer_id r.requester_principal_id) ≡ false
    → Good db
    → Good (decide_found organization_id d now r c db).1
unfolding decide_case
decide_found-Good organization_id d now r none db other good = good
decide_found-Good organization_id d now r (some c) db other good =
    elim (Bool-cases (is_ended c.status)) [
      | inl ended ↦ rw ended good
      | inr live ↦ rw live (
          insert-AreControlled db.requests db.deletion_jobs good (decided d now r)
            (decided-IsControlled d now r db.deletion_jobs other))
    ]

pub decide-Good :
    (organization_id : String) (r : DataSubjectRequest) (d : Decision) (now : ℕ) (db : Db)
    → Good db
    → Good (decide organization_id r d now db).1
unfolding decide
decide-Good organization_id r d now db good =
    elim (Bool-cases (opt_eq r.decision_idempotency_key (some d.idempotency_key))) [
      | inl again ↦
          elim (Bool-cases (
            str_eq r.final_decision d.decision
            && opt_eq r.reviewer_principal_id (some d.reviewer_id))) [
              | inl same ↦ rw (again, same) good
              | inr conflict ↦ rw (again, conflict) good
            ]
      | inr first ↦ elim (Bool-cases (is_requested r.status)) [
        | inr settled ↦ rw (first, settled) good
        | inl waits ↦
            elim (Bool-cases
              (is_delete r.request_type && str_eq d.reviewer_id r.requester_principal_id)) [
                | inl alone ↦ rw (first, waits, alone) good
                | inr other ↦
                    rw (first, waits, other)
                      (decide_found-Good organization_id d now r (case_of r.review_case_id db) db
                        other good)
              ]
      ]
    ]

withdrawn-IsControlled :
    (reason : String) (now : ℕ) (r : DataSubjectRequest) (jobs : List String)
    → IsControlled jobs r
    → IsControlled jobs (withdrawn reason now r)
withdrawn-IsControlled reason now r jobs c deletes = elim (c deletes) [
  | inl v ↦ inl (record { reviewer = v.reviewer; reviewed_by = v.reviewed_by; other = v.other })
  | inr u ↦ inr (record { idle = refl; unapproved = refl; unqueued = u.unqueued })
]

pub cancel-Good :
    (key : String) (r : DataSubjectRequest) (actor_id reason : String) (now : ℕ) (db : Db)
    → lookup key db.requests ≡ some r
    → Good db
    → Good (cancel r actor_id reason now db).1
unfolding cancel
cancel-Good key r actor_id reason now db found good = elim (Bool-cases (can_cancel r.status)) [
  | inr settled ↦ rw settled good
  | inl can ↦
      elim (Bool-cases (
        str_eq actor_id r.requester_principal_id
        || opt_eq r.reviewer_principal_id (some actor_id))) [
          | inr stranger ↦ rw (can, stranger) good
          | inl own ↦
              rw (can, own)
                (put-Good (withdrawn reason now r) db
                  (withdrawn-IsControlled reason now r db.deletion_jobs
                    (good.controlled key r found))
                  good)
        ]
]

-- An approved request, or one that is in the worker's hands, has been reviewed.
pub approved-IsReviewed :
    (jobs : List String) (r : DataSubjectRequest)
    → IsControlled jobs r
    → str_eq r.final_decision "approved" ≡ true
    → is_delete r.request_type ≡ true
    → IsReviewed r
approved-IsReviewed jobs r c is_approved deletes = elim (c deletes) [
  | inl v ↦ v
  | inr u ↦ let unapproved = u.unapproved in absurd (cc (is_approved, unapproved))
]

pub queued-IsReviewed :
    (jobs : List String) (r : DataSubjectRequest)
    → IsControlled jobs r
    → contains jobs r.id ≡ true
    → is_delete r.request_type ≡ true
    → IsReviewed r
queued-IsReviewed jobs r c queued deletes = elim (c deletes) [
  | inl v ↦ v
  | inr u ↦ let unqueued = u.unqueued in absurd (cc (queued, unqueued))
]
