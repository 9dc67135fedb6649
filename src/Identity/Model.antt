-- ===== src/Identity/Model.antt =====
-- The rows that src/ai_examiner/services/oidc.py reads and writes (models.py), its settings and its
-- errors. Login transactions are keyed by their state's hash and sessions by their token's hash, the
-- unique columns by which the code finds them.
use Prim.Native.String.{count}
use ai_examiner.Prelude.{
  leb, Dict, lookup, insert, Result, ok, err, ℕ, ◌*◌, String, Bool, true, false, not, ◌&&◌, Option,
  none, some, List, str_eq,
}
use ai_examiner.Enterprise.{PrincipalStatus}

pub record Principal : Type 0 where
  pub id : String
  pub issuer : String
  pub subject : String
  pub display_name : Option String
  pub email : Option String
  pub status : PrincipalStatus
  pub updated_at : ℕ
  pub disabled_at : Option ℕ

pub record OidcLoginTransaction : Type 0 where
  pub code_verifier_ciphertext : String
  pub nonce_hash : String
  pub redirect_uri : String
  pub created_at : ℕ
  pub expires_at : ℕ
  pub consumed_at : Option ℕ

pub record BrowserAuthSession : Type 0 where
  pub id : String
  pub principal_id : String
  pub scopes : List String
  pub auth_time : ℕ
  pub expires_at : ℕ
  pub last_seen_at : ℕ
  pub revoked_at : Option ℕ
  pub created_at : ℕ

pub record IdentityDb : Type 0 where
  pub principals : Dict Principal
  pub transactions : Dict OidcLoginTransaction
  pub sessions : Dict BrowserAuthSession

pub data Provisioning : Type 0 where
  existing_only auto_pending auto_active : Provisioning

-- The settings that the code reads, with the texts of the lists already split.
pub record OidcSettings : Type 0 where
  pub auth_disabled : Bool
  pub has_auth_session_secret : Bool
  pub oidc_audience : Option String
  pub oidc_client_id : Option String
  pub oidc_redirect_uri : Option String
  pub oidc_required_scope_set : List String
  pub oidc_algorithm_allowlist : List String
  pub oidc_access_token_type_allowlist : List String
  pub oidc_clock_skew_seconds : ℕ
  pub oidc_login_ttl_minutes : ℕ
  pub oidc_session_max_minutes : ℕ
  pub oidc_principal_provisioning : Provisioning

-- The reason codes of `OIDCError`; `integrity_error` is the database's, for a value that a unique
-- column has already.
pub data OidcError : Type 0 where
  token_size_invalid token_header_invalid token_algorithm_denied token_type_denied : OidcError
  token_kid_invalid token_remote_key_header_denied token_claim_or_signature_invalid : OidcError
  token_subject_invalid id_token_nonce_missing id_token_authorized_party_invalid : OidcError
  token_iat_in_future token_scope_invalid token_scope_insufficient : OidcError
  id_token_nonce_mismatch id_token_access_hash_invalid oidc_unknown_kid : OidcError
  oidc_callback_invalid oidc_state_invalid oidc_verifier_invalid : OidcError
  oidc_token_exchange_failed oidc_token_response_missing_tokens : OidcError
  oidc_token_identity_mismatch principal_not_provisioned principal_inactive : OidcError
  browser_session_invalid authorization_header_invalid authentication_required : OidcError
  auth_session_secret_missing dependency_unavailable integrity_error : OidcError

-- `not value or len(value) > size` has to be false.
abbrev pub has_size : ℕ → String → Bool
has_size size s = not (str_eq s "") && leb (count s) size

-- `timedelta(minutes=n)`
abbrev pub minutes : ℕ → ℕ
minutes n = n * 60000000

abbrev pub is_active_status : PrincipalStatus → Bool
is_active_status PrincipalStatus.active = true
is_active_status _ = false

-- `db.add` of a row whose unique column is `key`, with what the table has there
abbrev pub add_at {ℓ} : {A : Type ℓ} → String → A → Dict A → Option A → Result OidcError (Dict A)
add_at key row rows none = ok (insert key row rows)
add_at key row rows (some taken) = err integrity_error

abbrev pub add_unique {ℓ} : {A : Type ℓ} → String → A → Dict A → Result OidcError (Dict A)
add_unique key row rows = add_at key row rows (lookup key rows)
