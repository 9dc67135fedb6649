-- ===== src/Audit/Append.antt =====
-- Which requests src/ai_examiner/services/audit.py records, and what it writes: `_request_outcome`,
-- `should_audit_request`, `append_audit_event` and `append_request_audit_event`. The request is what
-- they read of it, with its action, its resource and its client already made into texts; identifiers,
-- the clock and the digest are arguments.
use Prim.Native.String.{◌++◌ as append_text}
use ai_examiner.Prelude.{
  leb, ◌==◌, if◌then◌else◌, Dict, ℕ, ◌+◌, ◌*◌, String, Bool, true, false, not, ◌&&◌, ◌||◌, Option,
  none, some, List, [], ◌∷◌, ◌++◌, str_eq,
}
use ai_examiner.Jobs.Model.{
  Json, null, int, text, Outcome, succeeded, denied, failed_outcome, seconds,
}
use ai_examiner.Audit.Model.{
  RetentionClass, security, sensitive_read, administrative, AuditEvent, same_outcome,
}
use ai_examiner.Audit.Redaction.{TextOps, safe_code, safe_identifier, redact_audit_metadata}

pub data AuthenticationNeed : Type 0 where
  public_route conditional_route required_route : AuthenticationNeed

pub record RoutePolicy : Type 0 where
  pub authentication : AuthenticationNeed
  pub capability : Option String
  pub resource_resolver : String
  pub audit : String

-- `request.state` and what the helpers read of the request.
pub record AuditedRequest : Type 0 where
  pub audit_reason_code : String
  pub audit_actor_type : String
  pub audit_actor_id : Option String
  pub audit_authentication_method : String
  pub request_id : String
  pub trace_id : String
  pub method : String
  pub route_template : String
  pub action : String
  pub resource_id : Option String
  pub source_ip_class : String
  pub source_ip_hash : Option String
  pub user_agent_family : String

abbrev pub is_refusal_code : ℕ → Bool
is_refusal_code status_code = (status_code == 401) || (status_code == 403)

-- `f"http_{status_code}"`
abbrev pub http_reason : TextOps → ℕ → String
http_reason ops status_code = append_text "http_" (ops.show (int status_code))

unfoldable pub request_outcome : TextOps → AuditedRequest → ℕ → Outcome × String
request_outcome ops request status_code =
    let reason = request.audit_reason_code in
    if not (str_eq reason "") || is_refusal_code status_code
    then (denied, if str_eq reason "" then http_reason ops status_code else reason)
    else if leb 400 status_code
    then (failed_outcome, http_reason ops status_code)
    else (succeeded, "")

-- `policy.audit in AUDITED_BEHAVIORS`
abbrev pub is_audited : String → Bool
is_audited audit =
    str_eq audit "authentication"
    || (str_eq audit "administrative" || str_eq audit "read_sensitive")

abbrev pub is_required : AuthenticationNeed → Bool
is_required required_route = true
is_required _ = false

unfoldable pub should_audit_request : AuditedRequest → Option RoutePolicy → ℕ → Bool
should_audit_request request none status_code = false
should_audit_request request (some policy) status_code =
    if is_audited policy.audit
    then true
    else not (str_eq request.audit_reason_code "")
      || (is_required policy.authentication && is_refusal_code status_code)

unfoldable pub retention_class_of : Outcome → RoutePolicy → RetentionClass
retention_class_of outcome policy =
    if same_outcome outcome denied
      || (same_outcome outcome failed_outcome || str_eq policy.audit "authentication")
    then security
    else if str_eq policy.audit "read_sensitive"
    then sensitive_read
    else administrative

-- `metadata` of `append_request_audit_event`; what the caller adds comes last.
abbrev pub request_metadata : RoutePolicy → AuditedRequest → ℕ → Dict Json → Dict Json
request_metadata policy request status_code added =
    ("audit_class", text policy.audit)
    ∷ ("capability", elim (policy.capability) [ none ↦ null | some name ↦ text name ])
    ∷ ("http_method", text request.method)
    ∷ ("route_template", text request.route_template)
    ∷ ("status_code", int status_code)
    ∷ added

-- The identifiers that `uuid4` makes, the time and the settings' days of retention.
pub record EventOrigin : Type 0 where
  pub event_id : String
  pub fresh_request_id : String
  pub fresh_trace_id : String
  pub now : ℕ
  pub audit_retention_days : ℕ

-- `append_audit_event` with the request's values, the event alone.
unfoldable pub audit_event :
    TextOps
    → (AuditEvent → String)
    → EventOrigin
    → Option String
    → RoutePolicy
    → AuditedRequest
    → ℕ
    → Dict Json
    → AuditEvent
audit_event ops digest origin organization_id policy request status_code added =
    let (outcome, reason_code) = request_outcome ops request status_code in
    let draft : AuditEvent = record {
      id = origin.event_id;
      schema_version = 1;
      organization_id = organization_id;
      actor_type = request.audit_actor_type;
      actor_id = safe_identifier ops request.audit_actor_id;
      authentication_method = safe_code ops (some request.audit_authentication_method) "unknown";
      action = safe_code ops (some request.action) "unknown";
      resource_type = safe_code ops (some policy.resource_resolver) "none";
      resource_id = safe_identifier ops request.resource_id;
      outcome = outcome;
      reason_code = safe_code ops (some reason_code) "";
      request_id = safe_code ops (some request.request_id) origin.fresh_request_id;
      trace_id = safe_code ops (some request.trace_id) origin.fresh_trace_id;
      source_ip_class = request.source_ip_class;
      source_ip_hash = request.source_ip_hash;
      user_agent_family = safe_code ops (some request.user_agent_family) "unknown";
      metadata = redact_audit_metadata ops (request_metadata policy request status_code added);
      event_digest = "";
      retention_class = retention_class_of outcome policy;
      retention_until = origin.now + seconds (origin.audit_retention_days * 86400);
      occurred_at = origin.now;
    } in
    record draft { event_digest = digest draft }

unfoldable pub append_request_audit_event :
    TextOps
    → (AuditEvent → String)
    → EventOrigin
    → Option String
    → RoutePolicy
    → AuditedRequest
    → ℕ
    → Dict Json
    → List AuditEvent
    → AuditEvent × List AuditEvent
append_request_audit_event ops digest origin organization_id policy request status_code added
      events =
    let e = audit_event ops digest origin organization_id policy request status_code added in
    (e, events ++ e ∷ [])
