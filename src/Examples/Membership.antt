-- ===== src/Examples/Membership.antt =====
-- The operations of src/ai_examiner/services/membership_admin.py on a small organization.
use ai_examiner.Prelude.{
  length, contains, ok, err, String, ◌≡◌, refl, true, false, none, some, [], ◌∷◌, arith,
}
use ai_examiner.Enterprise.{
  MembershipStatus, revoked, Role, owner, admin, examiner, reviewer, capabilities,
  effective_capabilities,
}
use ai_examiner.Enterprise.Bundles.{reserved, reserved_to_owners}
use ai_examiner.Membership.{
  OrganizationMembership, last_owner_required, Table, get_membership, save, active_owners,
  transition_allowed, update, revoke,
}
use ai_examiner.Membership.Owners.{
  updated, removed, Reach, here, next, HasOwner, Reach-HasOwner, stale_revocation,
}

abbrev member : String → String → Role → OrganizationMembership
member id principal role = record {
  id = id;
  organization_id = "org";
  principal_id = principal;
  role = role;
  status = MembershipStatus.active;
  version = 1;
  updated_at = 0;
}

abbrev two_owners : Table
two_owners = member "m1" "p1" owner ∷ member "m2" "p2" owner ∷ []

abbrev first_revoked : OrganizationMembership
first_revoked = record (member "m1" "p1" owner) { status = revoked; version = 2; updated_at = 7 }

abbrev one_left : Table
one_left = first_revoked ∷ member "m2" "p2" owner ∷ []

revoke_first : revoke (member "m1" "p1" owner) 1 7 two_owners ≡ ok (first_revoked, one_left)
unfolding revoke transition_allowed active_owners save
revoke_first = refl

-- The last owner cannot be revoked.
revoke_last : revoke (member "m2" "p2" owner) 1 8 one_left ≡ err last_owner_required
unfolding revoke transition_allowed active_owners
revoke_last = refl

one_step : Reach two_owners one_left
unfolding get_membership
one_step = next here (removed (member "m1" "p1" owner) 1 7 refl revoke_first)

Reach-HasOwner_example : HasOwner "org" one_left
unfolding active_owners
Reach-HasOwner_example = Reach-HasOwner "org" one_step (omega arith)

-- An examiner is loaded; then the examiner becomes an owner and the first owner is revoked.
abbrev examiner_row : OrganizationMembership
examiner_row = member "m2" "p2" examiner

abbrev loaded : Table
loaded = member "m1" "p1" owner ∷ examiner_row ∷ []

abbrev promoted : OrganizationMembership
promoted = record (member "m2" "p2" owner) { version = 2; updated_at = 6 }

abbrev both_owners : Table
both_owners = member "m1" "p1" owner ∷ promoted ∷ []

abbrev sole_owner : Table
sole_owner = first_revoked ∷ promoted ∷ []

promotes : update examiner_row 1 (some owner) none 6 loaded ≡ ok (promoted, both_owners)
unfolding update transition_allowed active_owners save
promotes = refl

revokes_first : revoke (member "m1" "p1" owner) 1 7 both_owners ≡ ok (first_revoked, sole_owner)
unfolding revoke transition_allowed active_owners save
revokes_first = refl

handed_over : Reach loaded sole_owner
unfolding get_membership
handed_over =
    next (next here (updated examiner_row 1 6 (some owner) none refl promotes))
      (removed (member "m1" "p1" owner) 1 7 refl revokes_first)

stale_revocation_example :
    (row : OrganizationMembership) × (ms' : Table) × (revoke examiner_row 1 8 sole_owner
      ≡ ok (row, ms'))
    × (length (active_owners "org" ms') ≡ 0)
unfolding active_owners get_membership
stale_revocation_example =
    stale_revocation examiner_row promoted 8 loaded sole_owner refl handed_over refl refl refl refl
      refl

reserved_to_owners_example :
    (contains reserved "member.grant_owner" ≡ true
      → contains (effective_capabilities reviewer) "member.grant_owner" ≡ true
      → reviewer ≡ owner)
    × (contains reserved "member.grant_owner" ≡ false
        → contains capabilities "member.grant_owner" ≡ true
        → contains (effective_capabilities admin) "member.grant_owner" ≡ true)
reserved_to_owners_example = reserved_to_owners reviewer "member.grant_owner"
