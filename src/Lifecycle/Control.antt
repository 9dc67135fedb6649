-- ===== src/Lifecycle/Control.antt =====
-- Two principals stand behind every deletion of src/ai_examiner/services/data_lifecycle.py: what holds
-- of the requests and of the jobs that were enqueued for them.
use mathlib.Core.Path.{subst}
use mathlib.Core.Option.{some-injective}
use ai_examiner.Prelude.{
  Bool-cases, is_some, contains, Dict, lookup, insert, lookup-insert, String, ◌≡◌, refl, sym, ap,
  ◌∙◌, ◌⊎◌, inl, inr, Bool, true, false, some, List, [], ◌∷◌, str_eq, eq_iff,
}
use ai_examiner.Lifecycle.Model.{RequestStatus, requested, cancelled, DataSubjectRequest, is_delete}
use ai_examiner.Lifecycle.Requests.{is_approved}

-- A principal other than the requester has reviewed the request.
pub record IsReviewed (r : DataSubjectRequest) : Type 0 where
  pub reviewer : String
  pub reviewed_by : r.reviewer_principal_id ≡ some reviewer
  pub other : str_eq reviewer r.requester_principal_id ≡ false

abbrev pub is_idle : RequestStatus → Bool
is_idle requested = true
is_idle cancelled = true
is_idle _ = false

-- The request has not been approved, and no job was enqueued for it.
pub record IsUntouched (jobs : List String) (r : DataSubjectRequest) : Type 0 where
  pub idle : is_idle r.status ≡ true
  pub unapproved : str_eq r.final_decision "approved" ≡ false
  pub unqueued : contains jobs r.id ≡ false

abbrev pub IsControlled : List String → DataSubjectRequest → Type 0
IsControlled jobs r = is_delete r.request_type ≡ true → IsReviewed r ⊎ IsUntouched jobs r

pub record AreControlled (requests : Dict DataSubjectRequest) (jobs : List String) : Type 0 where
  pub keyed : (k : String) (r : DataSubjectRequest) → lookup k requests ≡ some r → r.id ≡ k
  pub controlled :
      (k : String) (r : DataSubjectRequest) → lookup k requests ≡ some r → IsControlled jobs r
  pub known : (k : String) → contains jobs k ≡ true → is_some (lookup k requests) ≡ true

pub empty-AreControlled : AreControlled [] []
unfolding lookup
empty-AreControlled = record {
  keyed = λ k r found. cc;
  controlled = λ k r found. cc;
  known = λ k queued. cc;
}

module _ (requests : Dict DataSubjectRequest) (jobs : List String)
    (all : AreControlled requests jobs) where
  insert-keyed :
      (new : DataSubjectRequest) (k : String) (r : DataSubjectRequest)
      → lookup k (insert new.id new requests) ≡ some r
      → r.id ≡ k
  insert-keyed new k r found = elim (Bool-cases (str_eq new.id k)) [
    | inl same ↦
        let e = some-injective new r (rw (lookup-insert new.id k new requests, same) at found) in
        subst (λ x. x.id ≡ k) e ((eq_iff new.id k).0 same)
    | inr other ↦ all.keyed k r (rw (lookup-insert new.id k new requests, other) at found)
  ]

  insert-IsControlled :
      (new : DataSubjectRequest)
      → IsControlled jobs new
      → (k : String) (r : DataSubjectRequest) → lookup k (insert new.id new requests) ≡ some r
      → IsControlled jobs r
  insert-IsControlled new c k r found = elim (Bool-cases (str_eq new.id k)) [
    | inl same ↦
        subst (IsControlled jobs)
          (some-injective new r (rw (lookup-insert new.id k new requests, same) at found)) c
    | inr other ↦ all.controlled k r (rw (lookup-insert new.id k new requests, other) at found)
  ]

  insert-known :
      (new : DataSubjectRequest) (k : String)
      → contains jobs k ≡ true
      → is_some (lookup k (insert new.id new requests)) ≡ true
  insert-known new k queued = elim (Bool-cases (str_eq new.id k)) [
    | inl same ↦ rw (lookup-insert new.id k new requests, same) refl
    | inr other ↦ rw (lookup-insert new.id k new requests, other) (all.known k queued)
  ]

  -- A controlled row may be written.
  pub insert-AreControlled :
      (new : DataSubjectRequest)
      → IsControlled jobs new
      → AreControlled (insert new.id new requests) jobs
  insert-AreControlled new c = record {
    keyed = insert-keyed new;
    controlled = insert-IsControlled new c;
    known = insert-known new;
  }

  unqueued_still :
      (key k : String) (r other : DataSubjectRequest)
      → lookup key requests ≡ some r
      → str_eq r.final_decision "approved" ≡ true
      → lookup k requests ≡ some other
      → IsUntouched jobs other
      → IsUntouched (r.id ∷ jobs) other
  unqueued_still key k r other found is_approved found' u =
      elim (Bool-cases (str_eq r.id other.id)) [
        | inr differs ↦ record {
          idle = u.idle;
          unapproved = u.unapproved;
          unqueued = rw differs (u.unqueued);
        }
        | inl same ↦
            let same_key : key ≡ k =
              sym (all.keyed key r found)
              ∙ ((eq_iff r.id other.id).0 same ∙ all.keyed k other found') in
            let same_row : r ≡ other =
              some-injective r other
                (sym found ∙ (ap (λ x. lookup x requests) same_key ∙ found')) in
            let approved_other =
              subst (λ x. str_eq x.final_decision "approved" ≡ true) same_row is_approved in
            let unapproved = u.unapproved in absurd (cc (approved_other, unapproved))
      ]

  -- A job may be enqueued for an approved request.
  pub enqueue-AreControlled :
      (key : String) (r : DataSubjectRequest)
      → lookup key requests ≡ some r
      → str_eq r.final_decision "approved" ≡ true
      → AreControlled requests (r.id ∷ jobs)
  enqueue-AreControlled key r found is_approved = record {
    keyed = all.keyed;
    controlled = λ k other found' deletes. elim (all.controlled k other found' deletes) [
      | inl reviewed ↦ inl reviewed
      | inr u ↦ inr (unqueued_still key k r other found is_approved found' u)
    ];
    known = λ k queued. elim (Bool-cases (str_eq r.id k)) [
      | inl same ↦
          subst (λ x. is_some (lookup x requests) ≡ true)
            (sym (all.keyed key r found) ∙ (eq_iff r.id k).0 same) (rw found refl)
      | inr other ↦ all.known k (rw other at queued)
    ];
  }
