-- ===== src/Membership/Owners.antt =====
-- The active owners of an organization, and the operations of
-- src/ai_examiner/services/membership_admin.py as steps on the table of memberships.
use mathlib.Core.Option.{some-injective}
use mathlib.Core.Path.{subst}
use ai_examiner.Prelude.{
  ◌==◌, if◌then◌else◌, Bool-cases, str_eq_refl, length, Dict, ok, ℕ, ◌+◌, ◌≤◌, String, ◌≡◌, refl,
  sym, ap, ◌∙◌, inl, inr, true, false, not, ◌&&◌, Option, none, some, [], ◌∷◌, ◌++◌, arith, str_eq,
  eq_iff,
}
use ai_examiner.Membership.{
  OrganizationMembership, is_owner, is_active, is_active_owner, Table, get_membership, save,
  active_owners, transition_allowed, update, revoke, create,
}
use ai_examiner.Enterprise.{PrincipalStatus, MembershipStatus, revoked, Role}

abbrev weight : String → OrganizationMembership → ℕ
weight org m = if is_active_owner org m then 1 else 0

abbrev owners : String → Table → ℕ
owners org ms = length (active_owners org ms)

owners-cons :
    (org : String) (m : OrganizationMembership) (ms : Table)
    → owners org (m ∷ ms) ≡ weight org m + owners org ms
unfolding active_owners
owners-cons org m ms = elim (Bool-cases (is_active_owner org m)) [
  | inl e ↦ rw e (omega arith)
  | inr e ↦ rw e (omega arith)
]

-- Replacing a row changes the count of the owners by what the row counts.
owners-save :
    (org : String) (m row : OrganizationMembership) (ms : Table)
    → row.id ≡ m.id
    → get_membership m.id ms ≡ some m
    → owners org (save row ms) + weight org m ≡ owners org ms + weight org row
unfolding get_membership save
owners-save org m row [] same h = cc
owners-save org m row (x ∷ xs) same h = elim (Bool-cases (str_eq x.id m.id)) [
  | inl hit ↦
      let found : some x ≡ some m = rw hit at h in
      let eq : x ≡ m = cc found in
      let hit' : str_eq x.id row.id ≡ true = rw same hit in
      rw hit' (omega (arith, owners-cons org row xs, owners-cons org x xs, ap (weight org) eq))
  | inr miss ↦
      let miss' : str_eq x.id row.id ≡ false = rw same miss in
      rw miss' (
        omega (
          arith,
          owners-cons org x xs,
          owners-cons org x (save row xs),
          owners-save org m row xs same (rw miss at h),
        ))
]

owners-append :
    (org : String) (row : OrganizationMembership) (ms : Table)
    → owners org (ms ++ row ∷ []) ≡ owners org ms + weight org row
owners-append org row [] = omega (arith, owners-cons org row [])
owners-append org row (x ∷ xs) =
    omega
      (arith, owners-append org row xs, owners-cons org x xs, owners-cons org x (xs ++ row ∷ []))

-- What a successful `update` did.
record Updated (m : OrganizationMembership) (v : ℕ) (row : OrganizationMembership) (ms ms' : Table)
    : Type 0 where
  saved : ms' ≡ save row ms
  same_id : row.id ≡ m.id
  same_organization : row.organization_id ≡ m.organization_id
  current : m.version ≡ v
  bumped : row.version ≡ v + 1
  allowed : transition_allowed m.status row.status ≡ true
  kept :
      is_active_owner m.organization_id m ≡ true
      → is_active_owner m.organization_id row ≡ false
      → 2 ≤ owners m.organization_id ms

update_inversion :
    (m row : OrganizationMembership) (v now : ℕ) (role : Option Role)
    (status : Option MembershipStatus) (ms ms' : Table)
    → update m v role status now ms ≡ ok (row, ms')
    → Updated m v row ms ms'
unfolding update
update_inversion m row v now role status ms ms' h = ground arith

-- One administrative operation on the table of memberships, on a row read from it with no other
-- change in between; the load takes no lock in the source.
pub data Step (ms : Table) : Table → Type 0 where
  created :
      (id organization principal : String) (role : Role) (status : MembershipStatus) (now : ℕ)
      (principals : Dict PrincipalStatus) {row : OrganizationMembership} {ms' : Table}
      → create id organization principal role status now principals ms ≡ ok (row, ms')
      → Step ms ms'
  updated :
      (m : OrganizationMembership) (v now : ℕ) (role : Option Role)
      (status : Option MembershipStatus) {row : OrganizationMembership} {ms' : Table}
      → get_membership m.id ms ≡ some m
      → update m v role status now ms ≡ ok (row, ms')
      → Step ms ms'
  removed :
      (m : OrganizationMembership) (v now : ℕ) {row : OrganizationMembership} {ms' : Table}
      → get_membership m.id ms ≡ some m
      → revoke m v now ms ≡ ok (row, ms')
      → Step ms ms'

pub data Reach (ms : Table) : Table → Type 0 where
  here : Reach ms ms
  next : {ms' ms'' : Table} → Reach ms ms' → Step ms' ms'' → Reach ms ms''

abbrev pub HasOwner : String → Table → Type 0
HasOwner organization ms = 1 ≤ length (active_owners organization ms)

update-HasOwner :
    (org : String) (m row : OrganizationMembership) (ms ms' : Table) (v : ℕ)
    → get_membership m.id ms ≡ some m
    → Updated m v row ms ms'
    → HasOwner org ms
    → HasOwner org ms'
update-HasOwner org m row ms ms' v found u h = rw (u.saved) (
    ground (
      arith,
      owners-save org m row ms u.same_id found,
      u.kept,
      eq_iff m.organization_id org,
      u.same_organization,
    ))

created-HasOwner :
    (org id organization principal : String) (role : Role) (status : MembershipStatus) (now : ℕ)
    (principals : Dict PrincipalStatus) (row : OrganizationMembership) (ms ms' : Table)
    → create id organization principal role status now principals ms ≡ ok (row, ms')
    → HasOwner org ms
    → HasOwner org ms'
unfolding create
created-HasOwner org id organization principal role status now principals row ms ms' e h =
    let saved : ms' ≡ ms ++ row ∷ [] = ground arith in
    rw saved (omega (arith, owners-append org row ms))

Step-HasOwner : (org : String) {ms ms' : Table} → Step ms ms' → HasOwner org ms → HasOwner org ms'
unfolding revoke
Step-HasOwner org {ms} {ms'} (created id o p r s now ps {row} e) h =
    created-HasOwner org id o p r s now ps row ms ms' e h
Step-HasOwner org {ms} {ms'} (updated m v now role status {row} found e) h =
    update-HasOwner org m row ms ms' v found (update_inversion m row v now role status ms ms' e) h
Step-HasOwner org {ms} {ms'} (removed m v now {row} found e) h =
    update-HasOwner org m row ms ms' v found
      (update_inversion m row v now none (some revoked) ms ms' e) h

-- An organization with an active owner keeps one, whatever memberships are created, updated and
-- revoked, in whatever order, each loaded and written with no other change in between.
pub Reach-HasOwner :
    (organization : String) {before after : Table}
    → Reach before after
    → HasOwner organization before
    → HasOwner organization after
Reach-HasOwner org here h = h
Reach-HasOwner org (next r s) h = Step-HasOwner org s (Reach-HasOwner org r h)

get_membership-id :
    (id : String) (ms : Table) (m : OrganizationMembership)
    → get_membership id ms ≡ some m
    → m.id ≡ id
unfolding get_membership
get_membership-id id [] m found = cc
get_membership-id id (x ∷ xs) m found = elim (Bool-cases (str_eq x.id id)) [
  | inl hit ↦
      let same = some-injective x m (rw hit at found) in
      sym (ap (λ row. row.id) same) ∙ (eq_iff x.id id).0 hit
  | inr miss ↦ get_membership-id id xs m (rw miss at found)
]

may_revoke : (s : MembershipStatus) → transition_allowed s revoked ≡ true
unfolding transition_allowed
may_revoke MembershipStatus.invited = refl
may_revoke MembershipStatus.active = refl
may_revoke MembershipStatus.suspended = refl
may_revoke MembershipStatus.revoked = refl

same_version : (n : ℕ) → (n == n) ≡ true
same_version n = ground arith

revoke_outsider :
    (m : OrganizationMembership) (now : ℕ) (ms : Table)
    → is_active_owner m.organization_id m ≡ false
    → let row = record m { status = revoked; version = m.version + 1; updated_at = now } in
      revoke m m.version now ms ≡ ok (row, save row ms)
unfolding revoke update transition_allowed
revoke_outsider m now ms outsider =
    let free : not (is_owner m.role && is_active m.status) ≡ true =
      ground (arith, outsider, str_eq_refl m.organization_id) in
    rw (same_version m.version, may_revoke m.status, free) refl

-- The load of a membership takes no lock and the write has no condition on the row. When a client
-- has loaded a member who is no active owner, and that member has since become the only active owner,
-- revoking the loaded row passes the check of the version and the guard of the last owner, and the
-- organization has no active owner left.
pub stale_revocation :
    (m current : OrganizationMembership) (now : ℕ) (before ms : Table)
    → get_membership m.id before ≡ some m
    → Reach before ms
    → get_membership m.id ms ≡ some current
    → current.organization_id ≡ m.organization_id
    → is_active_owner m.organization_id m ≡ false
    → is_active_owner m.organization_id current ≡ true
    → length (active_owners m.organization_id ms) ≡ 1
    → (row : OrganizationMembership) × (ms' : Table) × (revoke m m.version now ms ≡ ok (row, ms'))
      × (length (active_owners m.organization_id ms') ≡ 0)
stale_revocation m current now before ms read path found same outsider owns sole =
    let row : OrganizationMembership = record m {
      status = revoked;
      version = m.version + 1;
      updated_at = now;
    } in
    let own = get_membership-id m.id ms current found in
    let count =
      owners-save m.organization_id current row ms (sym own)
        (subst (λ id. get_membership id ms ≡ some current) (sym own) found) in
    let light : weight m.organization_id row ≡ 0 = ground arith in
    let heavy : weight m.organization_id current ≡ 1 = rw owns refl in
    (row, save row ms, revoke_outsider m now ms outsider, omega (arith, count, light, heavy, sole))
