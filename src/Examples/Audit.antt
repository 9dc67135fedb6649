-- ===== src/Examples/Audit.antt =====
-- A small audit trail, from src/ai_examiner/services/audit.py.
use ai_examiner.Prelude.{
  length, All, insert, begins, has_text, ℕ, ◌≤◌, ◌<◌, String, ◌≡◌, refl, ◌≢◌, ◌⊎◌, true, none, some,
  List, [], ◌∷◌, arith, str_eq,
}
use ai_examiner.Jobs.Model.{Json, int, text, succeeded, denied, failed_outcome}
use ai_examiner.Audit.Model.{security, sensitive_read, administrative, AuditEvent}
use ai_examiner.Audit.Listing.{
  AuditFilters, matches, less, is_beyond, insert_event, ordered, event_rows, from_cursor, last_id,
  page, list_audit_events, all_pages,
}
use ai_examiner.Audit.Order.{IsTable}
use ai_examiner.Audit.Pages.{all_pages_complete}
use ai_examiner.Audit.Redaction.{
  TextOps, all_chars, is_identifier, redact_scalar, is_safe_key, redact_value, redact_from,
  redact_audit_metadata,
}
use ai_examiner.Audit.Safety.{IsSafeEntry, redact_audit_metadata-IsSafe}
use ai_examiner.Audit.Append.{
  required_route, RoutePolicy, AuditedRequest, should_audit_request, EventOrigin, audit_event,
}
use ai_examiner.Audit.Coverage.{IsDenialStatus, HasReason, MustRecord, recorded_iff}

-- Two events of one moment, and a later one.
abbrev event : String → ℕ → AuditEvent
event id time = record {
  id = id;
  schema_version = 1;
  organization_id = some "org";
  actor_type = "principal";
  actor_id = some "alice";
  authentication_method = "oidc";
  action = "projects.create";
  resource_type = "project";
  resource_id = none;
  outcome = succeeded;
  reason_code = "";
  request_id = "r";
  trace_id = "t";
  source_ip_class = "unknown";
  source_ip_hash = none;
  user_agent_family = "unknown";
  metadata = [];
  event_digest = "";
  retention_class = administrative;
  retention_until = 900;
  occurred_at = time;
}

abbrev events : List AuditEvent
events = event "a" 5 ∷ event "b" 5 ∷ event "c" 7 ∷ []

abbrev filters : AuditFilters
filters = record {
  actor_id = some "alice";
  action = none;
  resource_type = none;
  resource_id = none;
  outcome = none;
  occurred_after = some 1;
  occurred_before = none;
  request_id = some "";
}

newest_first : event_rows "org" filters events ≡ event "c" 7 ∷ event "b" 5 ∷ event "a" 5 ∷ []
unfolding event_rows matches ordered insert_event is_beyond less
newest_first = refl

first_page :
    list_audit_events "org" filters none 2 events ≡ (event "c" 7 ∷ event "b" 5 ∷ [], some "b")
unfolding list_audit_events page from_cursor last_id
first_page = rw newest_first refl

distinct : IsTable events
unfolding IsTable
distinct = (refl, ((refl, (refl, tt)), (refl, ((refl, tt), (refl, (tt, tt))))))

enough : length (event_rows "org" filters events) ≤ 3
enough = rw newest_first (omega arith)

all_pages_complete_example :
    all_pages "org" filters 2 events 3 none ≡ event_rows "org" filters events
all_pages_complete_example =
    all_pages_complete "org" filters 2 events distinct (omega arith) 3 enough

-- The texts as they are, with one pattern of a secret.
abbrev ops : TextOps
ops = record { show = λ value. "value"; strip = λ s. s; lower = λ s. s; is_secret = has_text "sk-" }

abbrev metadata : List (String × Json)
metadata =
    ("job_kind", text "evaluate")
    ∷ ("answer_text", text "I think")
    ∷ ("status_code", int 200)
    ∷ ("policy_version", text "sk-123")
    ∷ []

redacted_metadata :
    redact_audit_metadata ops metadata
    ≡ ("job_kind", text "evaluate")
      ∷ ("status_code", int 200)
      ∷ ("policy_version", text "[REDACTED]")
      ∷ []
unfolding redact_audit_metadata redact_from is_safe_key has_text begins redact_value insert
    redact_scalar is_identifier all_chars
redacted_metadata = refl

redact_audit_metadata-IsSafe_example : All (IsSafeEntry ops) (redact_audit_metadata ops metadata)
redact_audit_metadata-IsSafe_example = redact_audit_metadata-IsSafe ops metadata

abbrev origin : EventOrigin
origin = record {
  event_id = "e1";
  fresh_request_id = "r1";
  fresh_trace_id = "t1";
  now = 10;
  audit_retention_days = 365;
}

abbrev policy : RoutePolicy
policy = record {
  authentication = required_route;
  capability = some "projects.write";
  resource_resolver = "project";
  audit = "none";
}

abbrev request : AuditedRequest
request = record {
  audit_reason_code = "";
  audit_actor_type = "anonymous";
  audit_actor_id = none;
  audit_authentication_method = "none";
  request_id = "r2";
  trace_id = "t2";
  method = "POST";
  route_template = "/api/v1/projects";
  action = "projects.create";
  resource_id = none;
  source_ip_class = "public";
  source_ip_hash = none;
  user_agent_family = "firefox";
}

abbrev unauthorized : ℕ
unauthorized = 401

-- A write without a session.
abbrev refused : AuditEvent
refused = audit_event ops (λ e. "d") origin none policy request unauthorized []

recorded_iff_example :
    ((MustRecord request policy unauthorized
        → should_audit_request request (some policy) unauthorized ≡ true)
      × (should_audit_request request (some policy) unauthorized ≡ true
          → MustRecord request policy unauthorized))
    × (HasReason request ⊎ IsDenialStatus unauthorized
        → (refused.outcome ≡ denied) × (refused.retention_class ≡ security))
    × (str_eq "" "" ≡ true
        → unauthorized ≢ unauthorized
        → unauthorized ≢ 403
        → (400 ≤ unauthorized
            → (refused.outcome ≡ failed_outcome) × (refused.retention_class ≡ security))
          × (unauthorized < 400
              → (refused.outcome ≡ succeeded)
                × (policy.audit ≡ "authentication" → refused.retention_class ≡ security)
                × (policy.audit ≡ "read_sensitive" → refused.retention_class ≡ sensitive_read)
                × (policy.audit ≡ "administrative" → refused.retention_class ≡ administrative)))
recorded_iff_example = recorded_iff ops (λ e. "d") origin none policy request unauthorized []
