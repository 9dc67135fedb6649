-- ===== src/Membership.antt =====
-- src/ai_examiner/services/membership_admin.py: `MembershipAdministrationService`. The state is the
-- table of memberships and the table of principals, keyed by their identifiers. An update takes the
-- row that was loaded apart from the table it is written to: the load takes no lock, and
-- `with_for_update` covers the count of the owners and the write, where an active owner is demoted.
-- A commit or a flush writes the row; where another write came in between, the source writes the
-- changed columns only.
pub mod Owners
use ai_examiner.Prelude.{
  leb, ◌==◌, if◌then◌else◌, length, keep, exists, Dict, lookup, Result, ok, err, ◌>>◌, guard, ℕ,
  ◌+◌, String, Bool, true, false, not, ◌&&◌, ◌||◌, Option, none, some, List, [], ◌∷◌, ◌++◌, str_eq,
}
use ai_examiner.Enterprise.{
  PrincipalStatus, pending, MembershipStatus, invited, revoked, Role, owner,
}

pub record OrganizationMembership : Type 0 where
  pub id : String
  pub organization_id : String
  pub principal_id : String
  pub role : Role
  pub status : MembershipStatus
  pub version : ℕ
  pub updated_at : ℕ

-- The codes of `MembershipAdministrationError`. The roles and the statuses that the checks of
-- `_validate_role_and_status` refuse are no values of the data types.
pub data MembershipError : Type 0 where
  principal_unavailable membership_exists membership_version_conflict : MembershipError
  membership_transition_invalid last_owner_required resource_not_found : MembershipError

abbrev pub is_owner : Role → Bool
is_owner owner = true
is_owner _ = false

abbrev pub is_active : MembershipStatus → Bool
is_active MembershipStatus.active = true
is_active _ = false

-- An active owner of the organization.
abbrev pub is_active_owner : String → OrganizationMembership → Bool
is_active_owner organization_id m =
    str_eq m.organization_id organization_id && (is_owner m.role && is_active m.status)

abbrev pub Table : Type 0
Table = List OrganizationMembership

unfoldable pub get_membership : String → Table → Option OrganizationMembership
get_membership id [] = none
get_membership id (m ∷ ms) = if str_eq m.id id then some m else get_membership id ms

-- The row with the same identifier is replaced.
unfoldable pub save : OrganizationMembership → Table → Table
save row [] = []
save row (m ∷ ms) = if str_eq m.id row.id then row ∷ ms else m ∷ save row ms

unfoldable pub active_owners : String → Table → List OrganizationMembership
active_owners organization_id ms = keep (is_active_owner organization_id) ms

-- `_validate_status_transition`: whether the table of the function allows the step.
unfoldable pub transition_allowed : MembershipStatus → MembershipStatus → Bool
transition_allowed invited invited = true
transition_allowed invited MembershipStatus.active = true
transition_allowed invited revoked = true
transition_allowed MembershipStatus.active MembershipStatus.active = true
transition_allowed MembershipStatus.active MembershipStatus.suspended = true
transition_allowed MembershipStatus.active revoked = true
transition_allowed MembershipStatus.suspended MembershipStatus.suspended = true
transition_allowed MembershipStatus.suspended MembershipStatus.active = true
transition_allowed MembershipStatus.suspended revoked = true
transition_allowed revoked revoked = true
transition_allowed _ _ = false

protect_last_owner :
    OrganizationMembership → Role → MembershipStatus → Table → Result MembershipError (Unit {0})
unfolding active_owners
protect_last_owner m target_role target_status ms =
    let remains_active_owner = is_owner target_role && is_active target_status in
    let currently_active_owner = is_owner m.role && is_active m.status in
    if not currently_active_owner || remains_active_owner
    then ok tt
    else guard (not (leb (length (active_owners m.organization_id ms)) 1)) last_owner_required

abbrev target {ℓ} : {A : Type ℓ} → Option A → A → A
target none current = current
target (some a) current = a

-- `update`: the row as it was read, the version that the client saw, and what is to change.
unfoldable pub update :
    OrganizationMembership
    → ℕ
    → Option Role
    → Option MembershipStatus
    → ℕ
    → Table
    → Result MembershipError (OrganizationMembership × Table)
unfolding protect_last_owner
update m expected_version role status now ms = do
  guard (m.version == expected_version) membership_version_conflict
  let target_role = target role m.role
  let target_status = target status m.status
  guard (transition_allowed m.status target_status) membership_transition_invalid
  protect_last_owner m target_role target_status ms
  let row = record m {
    role = target_role;
    status = target_status;
    version = m.version + 1;
    updated_at = now;
  }
  ok (row, save row ms)

unfoldable pub revoke :
    OrganizationMembership → ℕ → ℕ → Table → Result MembershipError (OrganizationMembership × Table)
unfolding update
revoke m expected_version now ms = update m expected_version none (some revoked) now ms

unfoldable pub get_in_organization :
    String → String → Table → Result MembershipError OrganizationMembership
unfolding get_membership
get_in_organization organization_id id ms = elim (get_membership id ms) [
  | none ↦ err resource_not_found
  | some m ↦ if str_eq m.organization_id organization_id then ok m else err resource_not_found
]

abbrev can_receive : Option PrincipalStatus → Bool
can_receive none = false
can_receive (some PrincipalStatus.suspended) = false
can_receive (some PrincipalStatus.disabled) = false
can_receive (some PrincipalStatus.active) = true
can_receive (some pending) = true

-- The query for an existing membership of the principal.
abbrev is_for : String → String → OrganizationMembership → Bool
is_for organization_id principal_id m =
    str_eq m.organization_id organization_id && str_eq m.principal_id principal_id

new_membership : String → String → String → Role → MembershipStatus → ℕ → OrganizationMembership
new_membership id organization_id principal_id role status now = record {
  id = id;
  organization_id = organization_id;
  principal_id = principal_id;
  role = role;
  status = status;
  version = 1;
  updated_at = now;
}

-- `create`: the identifier is the one that the database gives the new row, its version is 1.
unfoldable pub create :
    String
    → String
    → String
    → Role
    → MembershipStatus
    → ℕ
    → Dict PrincipalStatus
    → Table
    → Result MembershipError (OrganizationMembership × Table)
unfolding new_membership
create id organization_id principal_id role status now principals ms = do
  guard (can_receive (lookup principal_id principals)) principal_unavailable
  guard (not (exists (is_for organization_id principal_id) ms)) membership_exists
  let row = new_membership id organization_id principal_id role status now
  ok (row, ms ++ row ∷ [])
