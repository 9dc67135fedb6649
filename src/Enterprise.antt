-- ===== src/Enterprise.antt =====
-- src/ai_examiner/enterprise_constants.py and `effective_capabilities` of
-- src/ai_examiner/services/authorization.py: the statuses, the roles and the capability bundle of
-- each role. A capability stays the text that jobs and requests carry; a set of capabilities is a
-- list that is read by `contains`. The statuses and the roles are data types, since the tables'
-- constraints admit no other value.
pub mod Bundles
use ai_examiner.Prelude.{keep, contains, String, not, List, [], ◌∷◌, ◌++◌}

pub data OrganizationStatus : Type 0 where
  active suspended disabled : OrganizationStatus

pub data PrincipalStatus : Type 0 where
  pending active suspended disabled : PrincipalStatus

pub data MembershipStatus : Type 0 where
  invited active suspended revoked : MembershipStatus

pub data Role : Type 0 where
  owner admin examiner template_author reviewer learner auditor : Role

abbrev pub capabilities : List String
capabilities =
    "organization.read" ∷ "organization.update" ∷ "organization.delete" ∷ "member.read"
    ∷ "member.manage" ∷ "member.grant_owner" ∷ "service_account.read" ∷ "service_account.manage"
    ∷ "policy.read" ∷ "policy.manage" ∷ "audit.read" ∷ "usage.read" ∷ "retention.read"
    ∷ "retention.manage" ∷ "project.create" ∷ "project.read" ∷ "project.update" ∷ "project.delete"
    ∷ "document.create" ∷ "document.read" ∷ "document.delete" ∷ "blueprint.create"
    ∷ "blueprint.read" ∷ "session.create" ∷ "session.conduct" ∷ "session.read" ∷ "report.read"
    ∷ "dataset.manage" ∷ "benchmark.run" ∷ "expert_rating.create" ∷ "template.read"
    ∷ "template.author" ∷ "template.review" ∷ "template.publish" ∷ "template.bind" ∷ "prompt.read"
    ∷ "prompt.author" ∷ "prompt.activate" ∷ "learner.read" ∷ "learner.manage"
    ∷ "learner_memory.read_self" ∷ "learner_memory.manage_self" ∷ "learner_memory.admin"
    ∷ "retest.manage" ∷ "review_case.create" ∷ "review_case.review" ∷ "review_case.appeal"
    ∷ "job.read" ∷ "job.manage" ∷ "provider_health.read" ∷ "system_metrics.read"
    ∷ "system_backup.run" ∷ "assignment.manage" ∷ "assignment.read" ∷ "assignment.attempt" ∷ []

abbrev organization_read : List String
organization_read = "organization.read" ∷ "template.read" ∷ []

abbrev work_read : List String
work_read =
    "project.read" ∷ "document.read" ∷ "blueprint.read" ∷ "session.read" ∷ "report.read" ∷ []

-- What `CAPABILITIES - { … }` takes from an administrator.
abbrev pub owner_only : List String
owner_only = "organization.delete" ∷ "member.grant_owner" ∷ "system_backup.run" ∷ []

unfoldable pub effective_capabilities : Role → List String
effective_capabilities owner = capabilities
effective_capabilities admin = keep (λ c. not (contains owner_only c)) capabilities
effective_capabilities examiner =
    organization_read
    ++ (work_read
        ++ ("project.create" ∷ "project.update" ∷ "document.create" ∷ "document.delete"
            ∷ "blueprint.create" ∷ "session.create" ∷ "session.conduct" ∷ "dataset.manage"
            ∷ "benchmark.run" ∷ "expert_rating.create" ∷ "template.bind" ∷ "learner.read"
            ∷ "retest.manage" ∷ "job.read" ∷ "job.manage" ∷ "usage.read" ∷ "assignment.manage"
            ∷ "assignment.read" ∷ "assignment.attempt" ∷ []))
effective_capabilities template_author =
    organization_read
    ++ (work_read ++ ("template.author" ∷ "template.bind" ∷ "prompt.read" ∷ "prompt.author" ∷ []))
effective_capabilities reviewer =
    organization_read
    ++ (work_read
        ++ ("policy.read" ∷ "template.review" ∷ "prompt.read" ∷ "learner.read"
            ∷ "review_case.create" ∷ "review_case.review" ∷ "review_case.appeal" ∷ "assignment.read"
            ∷ []))
effective_capabilities learner =
    organization_read
    ++ ("learner_memory.read_self" ∷ "learner_memory.manage_self" ∷ "review_case.appeal"
        ∷ "assignment.attempt" ∷ [])
effective_capabilities auditor =
    organization_read
    ++ (work_read
        ++ ("member.read" ∷ "service_account.read" ∷ "policy.read" ∷ "audit.read" ∷ "usage.read"
            ∷ "retention.read" ∷ "prompt.read" ∷ "learner.read" ∷ "job.read"
            ∷ "provider_health.read" ∷ "system_metrics.read" ∷ "assignment.read" ∷ []))

abbrev pub high_risk_capabilities : List String
high_risk_capabilities =
    "organization.delete" ∷ "member.grant_owner" ∷ "service_account.manage" ∷ "template.publish"
    ∷ "retention.manage" ∷ "learner_memory.admin" ∷ "policy.manage" ∷ "system_backup.run" ∷ []
