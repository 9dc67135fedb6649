-- ===== src/Audit/Coverage.antt =====
-- Which requests src/ai_examiner/services/audit.py records, and as what.
use ai_examiner.Prelude.{
  leb, ◌==◌, Bool-cases, le→leb, Dict, ℕ, ◌≤◌, ◌<◌, String, ◌≡◌, refl, ◌≢◌, ◌⊎◌, inl, inr, true,
  false, not, ◌&&◌, ◌||◌, Option, some, arith, str_eq, eq_iff,
}
use ai_examiner.Jobs.Model.{Json, succeeded, denied, failed_outcome}
use ai_examiner.Audit.Model.{security, sensitive_read, administrative, AuditEvent}
use ai_examiner.Audit.Redaction.{TextOps}
use ai_examiner.Audit.Append.{
  AuthenticationNeed, public_route, conditional_route, required_route, RoutePolicy, AuditedRequest,
  request_outcome, is_required, should_audit_request, retention_class_of, EventOrigin, audit_event,
}

-- The behaviours of routes whose requests are all recorded.
abbrev pub IsAuditedRoute : RoutePolicy → Type 0
IsAuditedRoute policy =
    (policy.audit ≡ "authentication")
    ⊎ ((policy.audit ≡ "administrative") ⊎ (policy.audit ≡ "read_sensitive"))

abbrev pub IsDenialStatus : ℕ → Type 0
IsDenialStatus status_code = (status_code ≡ 401) ⊎ (status_code ≡ 403)

-- A handler has noted a denial.
abbrev pub HasReason : AuditedRequest → Type 0
HasReason request = str_eq request.audit_reason_code "" ≡ false

-- The requests that leave an event.
abbrev pub MustRecord : AuditedRequest → RoutePolicy → ℕ → Type 0
MustRecord request policy status_code =
    IsAuditedRoute policy
    ⊎ (HasReason request ⊎ ((policy.authentication ≡ required_route) × IsDenialStatus status_code))

required-is_required : (need : AuthenticationNeed) → is_required need ≡ true → need ≡ required_route
required-is_required required_route h = refl
required-is_required public_route h = cc
required-is_required conditional_route h = cc

denial_status : (n : ℕ) → ((n == 401) || (n == 403)) ≡ true → IsDenialStatus n
denial_status n h = elim (Bool-cases (n == 401)) [
  | inl first ↦ inl (ground (arith, first))
  | inr other ↦ inr (ground (arith, other, h))
]

status_denial : (n : ℕ) → IsDenialStatus n → ((n == 401) || (n == 403)) ≡ true
status_denial n (inl first) = ground (arith, first)
status_denial n (inr second) = ground (arith, second)

MustRecord-should_audit :
    (request : AuditedRequest) (policy : RoutePolicy) (status_code : ℕ)
    → MustRecord request policy status_code
    → should_audit_request request (some policy) status_code ≡ true
unfolding should_audit_request
MustRecord-should_audit request policy status_code (inl (inl route)) = rw route refl
MustRecord-should_audit request policy status_code (inl (inr (inl route))) = rw route refl
MustRecord-should_audit request policy status_code (inl (inr (inr route))) = rw route refl
MustRecord-should_audit request policy status_code (inr (inl reason)) = ground (arith, reason)
MustRecord-should_audit request policy status_code (inr (inr (need, status))) =
    let refused = status_denial status_code status in rw (need, refused) (ground arith)

should_audit-MustRecord :
    (request : AuditedRequest) (policy : RoutePolicy) (status_code : ℕ)
    → should_audit_request request (some policy) status_code ≡ true
    → MustRecord request policy status_code
unfolding should_audit_request
should_audit-MustRecord request policy status_code h =
    elim (Bool-cases (str_eq policy.audit "authentication")) [
      | inl route ↦ inl (inl ((eq_iff policy.audit "authentication").0 route))
      | inr no_login ↦ elim (Bool-cases (str_eq policy.audit "administrative")) [
        | inl route ↦ inl (inr (inl ((eq_iff policy.audit "administrative").0 route)))
        | inr no_change ↦ elim (Bool-cases (str_eq policy.audit "read_sensitive")) [
          | inl route ↦ inl (inr (inr ((eq_iff policy.audit "read_sensitive").0 route)))
          | inr no_read ↦ elim (Bool-cases (str_eq request.audit_reason_code "")) [
            | inr reason ↦ inr (inl reason)
            | inl silent ↦
                let rest : (is_required policy.authentication
                      && ((status_code == 401) || (status_code == 403)))
                    ≡ true =
                  ground (arith, h, no_login, no_change, no_read, silent) in
                inr (
                  inr (
                    required-is_required policy.authentication (ground (arith, rest)),
                    denial_status status_code (ground (arith, rest)),
                  ))
          ]
        ]
      ]
    ]

refusal_test :
    (request : AuditedRequest) (status_code : ℕ)
    → HasReason request ⊎ IsDenialStatus status_code
    → (not (str_eq request.audit_reason_code "") || ((status_code == 401) || (status_code == 403)))
      ≡ true
refusal_test request status_code (inl reason) = ground (arith, reason)
refusal_test request status_code (inr status) =
    let refused = status_denial status_code status in ground (arith, refused)

-- The requests of a route that leave an event are those of an audited route, those with a noted
-- denial, and those of a route that requires authentication which are answered by 401 or 403; no
-- other failure of an unaudited route is recorded. An event is a denial of the security class where
-- a denial was noted or the answer is 401 or 403; else it is a failure of the security class from
-- 400 on, and below it is a success of the route's own class.
pub recorded_iff :
    (ops : TextOps) (digest : AuditEvent → String) (origin : EventOrigin)
    (organization_id : Option String) (policy : RoutePolicy) (request : AuditedRequest)
    (status_code : ℕ) (added : Dict Json)
    → let e = audit_event ops digest origin organization_id policy request status_code added in
      ((MustRecord request policy status_code
          → should_audit_request request (some policy) status_code ≡ true)
        × (should_audit_request request (some policy) status_code ≡ true
            → MustRecord request policy status_code))
      × (HasReason request ⊎ IsDenialStatus status_code
          → (e.outcome ≡ denied) × (e.retention_class ≡ security))
      × (str_eq request.audit_reason_code "" ≡ true
          → status_code ≢ 401
          → status_code ≢ 403
          → (400 ≤ status_code → (e.outcome ≡ failed_outcome) × (e.retention_class ≡ security))
            × (status_code < 400
                → (e.outcome ≡ succeeded)
                  × (policy.audit ≡ "authentication" → e.retention_class ≡ security)
                  × (policy.audit ≡ "read_sensitive" → e.retention_class ≡ sensitive_read)
                  × (policy.audit ≡ "administrative" → e.retention_class ≡ administrative)))
unfolding audit_event request_outcome retention_class_of
recorded_iff ops digest origin organization_id policy request status_code added = (
  (
    MustRecord-should_audit request policy status_code,
    should_audit-MustRecord request policy status_code,
  ),
  λ refusal.
      let refused = refusal_test request status_code refusal in (rw refused refl, rw refused refl),
  λ quiet not_401 not_403.
      let accepted : (not (str_eq request.audit_reason_code "")
            || ((status_code == 401) || (status_code == 403)))
          ≡ false =
        ground (arith, quiet, not_401, not_403) in
      (
        λ bad.
            let is_error = le→leb 400 status_code bad in
            (rw (accepted, is_error) refl, rw (accepted, is_error) refl),
        λ good.
            let fine : leb 400 status_code ≡ false = ground (arith, good) in
            (
              rw (accepted, fine) refl,
              λ route. rw (accepted, fine, route) refl,
              λ route. rw (accepted, fine, route) refl,
              λ route. rw (accepted, fine, route) refl,
            ),
      ),
)
