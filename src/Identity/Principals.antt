-- ===== src/Identity/Principals.antt =====
-- `resolve_principal` of src/ai_examiner/services/oidc.py and `transition_principal_status` of
-- services/enterprise_identity.py. Principals are keyed by their identifier.
use ai_examiner.Prelude.{
  if◌then◌else◌, Dict, insert, Result, ok, err, ◌>>◌, guard, ℕ, String, Bool, true, false, ◌&&◌,
  Option, none, some, [], ◌∷◌, str_eq,
}
use ai_examiner.Enterprise.{PrincipalStatus}
use ai_examiner.Identity.Model.{
  Principal, IdentityDb, Provisioning, existing_only, auto_active, OidcSettings, OidcError,
  principal_not_provisioned, principal_inactive, is_active_status,
}
use ai_examiner.Identity.Tokens.{ValidatedToken}

-- `select(Principal).where(issuer == ..., subject == ...)`
unfoldable pub find_principal : String → String → Dict Principal → Option Principal
find_principal issuer subject [] = none
find_principal issuer subject ((id, p) ∷ rest) =
    if str_eq p.issuer issuer && str_eq p.subject subject
    then some p
    else find_principal issuer subject rest

abbrev pub only_active : Principal → Result OidcError Principal
only_active p = guard (is_active_status p.status) principal_inactive >> ok p

abbrev pub provisioned : Provisioning → PrincipalStatus
provisioned auto_active = PrincipalStatus.active
provisioned _ = PrincipalStatus.pending

abbrev pub new_principal : OidcSettings → ValidatedToken → String → ℕ → Principal
new_principal settings token id now = record {
  id = id;
  issuer = token.issuer;
  subject = token.subject;
  display_name = token.display_name;
  email = token.email;
  status = provisioned settings.oidc_principal_provisioning;
  updated_at = now;
  disabled_at = none;
}

abbrev pub may_provision : Provisioning → Bool
may_provision existing_only = false
may_provision _ = true

-- A principal that is added stays, also when it is still pending and refused.
abbrev pub provision :
    OidcSettings
    → ValidatedToken
    → String
    → ℕ
    → IdentityDb
    → Result OidcError Principal × IdentityDb
provision settings token id now db =
    let p = new_principal settings token id now in
    if may_provision settings.oidc_principal_provisioning
    then (only_active p, record db { principals = insert id p db.principals })
    else (err principal_not_provisioned, db)

abbrev pub or_provision :
    OidcSettings
    → ValidatedToken
    → String
    → ℕ
    → IdentityDb
    → Option Principal
    → Result OidcError Principal × IdentityDb
or_provision settings token id now db (some p) = (only_active p, db)
or_provision settings token id now db none = provision settings token id now db

unfoldable pub resolve_principal :
    OidcSettings
    → ValidatedToken
    → String
    → ℕ
    → IdentityDb
    → Result OidcError Principal × IdentityDb
resolve_principal settings token id now db =
    or_provision settings token id now db (find_principal token.issuer token.subject db.principals)

-- The table of `transition_principal_status`, for a status that differs.
unfoldable pub may_become : PrincipalStatus → PrincipalStatus → Bool
may_become PrincipalStatus.disabled _ = false
may_become PrincipalStatus.pending PrincipalStatus.suspended = false
may_become _ PrincipalStatus.pending = false
may_become _ _ = true

abbrev pub same_status : PrincipalStatus → PrincipalStatus → Bool
same_status PrincipalStatus.pending PrincipalStatus.pending = true
same_status PrincipalStatus.active PrincipalStatus.active = true
same_status PrincipalStatus.suspended PrincipalStatus.suspended = true
same_status PrincipalStatus.disabled PrincipalStatus.disabled = true
same_status _ _ = false

abbrev pub disabled_time : PrincipalStatus → ℕ → Option ℕ
disabled_time PrincipalStatus.disabled now = some now
disabled_time _ now = none

-- Nothing when the transition is refused.
unfoldable pub transition_principal_status :
    Principal → PrincipalStatus → ℕ → IdentityDb → Option IdentityDb
transition_principal_status p target now db =
    let moved : Principal = record p {
      status = target;
      updated_at = now;
      disabled_at = disabled_time target now;
    } in
    if same_status target p.status
    then some db
    else if may_become p.status target
    then some (record db { principals = insert p.id moved db.principals })
    else none
