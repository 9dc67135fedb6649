-- ===== src/Identity/Steps.antt =====
-- The operations of src/ai_examiner/services/oidc.py as steps, in any order. A callback is a step
-- from the moment at which it has read its transaction, so callbacks may overlap.
use ai_examiner.Prelude.{ℕ, String, ◌≡◌, Option, some}
use ai_examiner.Enterprise.{PrincipalStatus}
use ai_examiner.Identity.Model.{Principal, OidcLoginTransaction, IdentityDb, OidcSettings}
use ai_examiner.Identity.Tokens.{TokenOps}
use ai_examiner.Identity.Principals.{transition_principal_status}
use ai_examiner.Identity.Login.{OidcProvider, LoginSecrets, SessionDraw, begin_login, finish_login}
use ai_examiner.Identity.Access.{authenticate_bearer, authenticate_session, revoke_session}

module _ {Key : Type 0} (ops : TokenOps Key) (settings : OidcSettings) where
  pub data Step (db : IdentityDb) : IdentityDb → Type 0 where
    beginning :
        (secrets : LoginSecrets) (now : ℕ) → Step db (begin_login ops settings secrets now db).1
    callback :
        (provider : OidcProvider Key) (state login_code : String) (draw : SessionDraw) (now : ℕ)
        (tx : OidcLoginTransaction)
        → Step db (finish_login ops settings provider state login_code draw now tx db).1
    bearer :
        (provider : OidcProvider Key) (token principal_id : String) (now : ℕ)
        → Step db (authenticate_bearer ops settings provider token principal_id now db).1
    request :
        (session_token : String) (now : ℕ)
        → Step db (authenticate_session ops settings session_token now db).1
    logout :
        (session_token : Option String) (now : ℕ)
        → Step db (revoke_session ops settings session_token now db).1
    status_change :
        (p : Principal) (target : PrincipalStatus) (now : ℕ) {db' : IdentityDb}
        → transition_principal_status p target now db ≡ some db'
        → Step db db'

  pub data Reach (db : IdentityDb) : IdentityDb → Type 0 where
    here : Reach db db
    next : {db' db'' : IdentityDb} → Reach db db' → Step db' db'' → Reach db db''
