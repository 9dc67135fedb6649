-- ===== src/Lifecycle/Reviews.antt =====
-- `HumanReviewService` of src/ai_examiner/services/data_lifecycle.py. The case is the row that the
-- caller has read; `new_id` and the clock are arguments.
use ai_examiner.Prelude.{
  if◌then◌else◌, Result, ok, err, ℕ, String, Bool, true, false, Option, none, some, List,
}
use ai_examiner.Lifecycle.Model.{
  CaseStatus, case_open, case_assigned, case_decided, case_appealed, case_closed, HumanReviewCase,
  EventType, created_event, assigned_event, decision_event, appeal_event, HumanReviewEvent, Db,
  LifecycleError, review_case_terminal, review_case_not_decided, put_case,
}

abbrev pub event_of :
    String → HumanReviewCase → EventType → String → Option String → String → HumanReviewEvent
event_of organization_id c event_type actor_type actor_id decision = record {
  organization_id = organization_id;
  case_id = c.id;
  event_type = event_type;
  actor_type = actor_type;
  actor_id = actor_id;
  decision = decision;
}

-- `case_type` to `actor_id` of `create`.
pub record CaseDraft : Type 0 where
  pub case_type : String
  pub resource_type : String
  pub resource_id : String
  pub title : String
  pub summary : String
  pub evidence : List String
  pub actor_type : String
  pub actor_id : Option String

abbrev pub drafted : String → String → CaseDraft → HumanReviewCase
drafted organization_id id draft = record {
  id = id;
  organization_id = organization_id;
  case_type = draft.case_type;
  resource_type = draft.resource_type;
  resource_id = draft.resource_id;
  status = case_open;
  title = draft.title;
  summary = draft.summary;
  evidence = draft.evidence;
  created_by_actor_type = draft.actor_type;
  created_by_actor_id = draft.actor_id;
  assigned_principal_id = none;
  final_decision = "";
  final_decision_by_principal_id = none;
  decided_at = none;
}

unfoldable pub create_case : String → String → CaseDraft → Db → HumanReviewCase × Db
create_case organization_id id draft db =
    let c = drafted organization_id id draft in
    (c, put_case c (event_of organization_id c created_event draft.actor_type draft.actor_id "") db)

abbrev pub is_ended : CaseStatus → Bool
is_ended case_decided = true
is_ended case_closed = true
is_ended _ = false

unfoldable pub assign :
    String → HumanReviewCase → String → String → Db → Result LifecycleError HumanReviewCase × Db
assign organization_id c reviewer_id actor_id db =
    let c' = record c { assigned_principal_id = some reviewer_id; status = case_assigned } in
    if is_ended c.status then (err review_case_terminal, db) else (
      ok c',
      put_case c' (event_of organization_id c assigned_event "human" (some actor_id) "") db,
    )

-- `review_case.status not in {"open", "assigned", "appealed"}` is the same test, negated.
unfoldable pub decide_case :
    String → HumanReviewCase → String → String → ℕ → Db → Result LifecycleError HumanReviewCase × Db
decide_case organization_id c decision actor_id now db =
    let c' = record c {
      final_decision = decision;
      final_decision_by_principal_id = some actor_id;
      decided_at = some now;
      status = case_decided;
    } in
    if is_ended c.status then (err review_case_terminal, db) else (
      ok c',
      put_case c' (event_of organization_id c decision_event "human" (some actor_id) decision) db,
    )

unfoldable pub appeal :
    String → HumanReviewCase → String → Db → Result LifecycleError HumanReviewCase × Db
appeal organization_id c actor_id db =
    let c' = record c {
      status = case_appealed;
      final_decision = "";
      final_decision_by_principal_id = none;
      decided_at = none;
    } in
    if is_ended c.status
    then (
      ok c',
      put_case c' (event_of organization_id c appeal_event "human" (some actor_id) "") db,
    )
    else (err review_case_not_decided, db)
