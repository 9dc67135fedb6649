-- ===== src/Examples/Identity.antt =====
-- A login, a request and a logout, from src/ai_examiner/services/oidc.py.
use ai_examiner.Prelude.{
  if◌then◌else◌, Dict, lookup, insert, ok, err, ℕ, ◌+◌, ◌<◌, String, ◌≡◌, refl, ap, true, false,
  ◌&&◌, none, some, [], ◌∷◌,
}
use ai_examiner.Enterprise.{PrincipalStatus}
use ai_examiner.Jobs.Model.{Json, int, text}
use ai_examiner.Audit.Redaction.{insert_unique, sorted_set}
use ai_examiner.Identity.Model.{
  Principal, OidcLoginTransaction, BrowserAuthSession, IdentityDb, existing_only, OidcSettings,
  oidc_callback_invalid, oidc_state_invalid, browser_session_invalid, has_size, minutes,
}
use ai_examiner.Identity.Tokens.{
  TokenOps, check_header, is_authorized_party, check_nonce, check_claims, decode, identity,
  scopes_of, validate_access_token, check_access_hash, validate_id_token,
}
use ai_examiner.Identity.Login.{
  OidcProvider, LoginSecrets, SessionDraw, begin_login, open_transaction, consume,
  verified_identity, finish_login, complete_login,
}
use ai_examiner.Identity.Access.{
  live_session, session_context, authenticate_session, revoke_session,
}
use ai_examiner.Identity.Steps.{beginning, callback, here, next}
use ai_examiner.Identity.Changes.Steps.{IsLive}
use ai_examiner.Identity.Overlap.{
  Callback, completes, finishes, reads, verifies, overlapping_callbacks,
}
use ai_examiner.Identity.Sessions.{
  revoked_stays_out, login_once, authenticate_session-IsAuthenticated,
}
use ai_examiner.Identity.Principals.{find_principal, resolve_principal}

-- Hashes that leave a text as it is, and a library that finds every signature valid.
abbrev claims : Dict Json
claims =
    ("iss", text "idp")
    ∷ ("sub", text "alice")
    ∷ ("aud", text "app")
    ∷ ("iat", int 1)
    ∷ ("exp", int 600)
    ∷ ("scope", text "exam")
    ∷ ("nonce", text "n")
    ∷ []

abbrev ops : TokenOps ℕ
ops = record {
  show = λ value. "value";
  lower = λ s. s;
  split = λ s. s ∷ [];
  sha256 = λ s. s;
  microseconds = λ value. 1000000;
  unverified_header =
      λ token. some (("alg", text "RS256") ∷ ("typ", text "jwt") ∷ ("kid", text "k") ∷ []);
  jwt_decode = λ token key audience now. some claims;
  access_hash = λ token access_token. none;
}

abbrev settings : OidcSettings
settings = record {
  auth_disabled = false;
  has_auth_session_secret = true;
  oidc_audience = some "app";
  oidc_client_id = some "app";
  oidc_redirect_uri = some "/callback";
  oidc_required_scope_set = "exam" ∷ [];
  oidc_algorithm_allowlist = "RS256" ∷ [];
  oidc_access_token_type_allowlist = "jwt" ∷ [];
  oidc_clock_skew_seconds = 30;
  oidc_login_ttl_minutes = 10;
  oidc_session_max_minutes = 480;
  oidc_principal_provisioning = existing_only;
}

abbrev provider : OidcProvider ℕ
provider = record {
  signing_key = λ kid algorithm. ok 1;
  exchange_code = λ login_code verifier redirect_uri.
      ok (("access_token", text "at") ∷ ("id_token", text "it") ∷ []);
  decrypt = λ ttl ciphertext. some ciphertext;
}

abbrev alice : Principal
alice = record {
  id = "p1";
  issuer = "idp";
  subject = "alice";
  display_name = none;
  email = none;
  status = PrincipalStatus.active;
  updated_at = 0;
  disabled_at = none;
}

abbrev empty : IdentityDb
empty = record { principals = ("p1", alice) ∷ []; transactions = []; sessions = [] }

abbrev secrets : LoginSecrets
secrets = record { state = "s"; ciphertext = "c"; nonce = "n" }

abbrev draw : SessionDraw
draw = record { principal_id = "p2"; session_id = "b1"; session_secret = "key"; session_now = 6 }

abbrev begun_db : IdentityDb
begun_db = (begin_login ops settings secrets 5 empty).1

abbrev transaction : OidcLoginTransaction
transaction = record {
  code_verifier_ciphertext = "c";
  nonce_hash = "n";
  redirect_uri = "/callback";
  created_at = 5;
  expires_at = 600000005;
  consumed_at = none;
}

read_transaction : open_transaction ops settings "s" "code" 6 begun_db ≡ ok transaction
unfolding begin_login open_transaction lookup insert
read_transaction = refl

abbrev logged_in : IdentityDb
logged_in = (finish_login ops settings provider "s" "code" draw 6 transaction begun_db).1

abbrev row : BrowserAuthSession
row = record {
  id = "b1";
  principal_id = "p1";
  scopes = "exam" ∷ [];
  auth_time = 1000000;
  expires_at = 1000000;
  last_seen_at = 6;
  revoked_at = none;
  created_at = 6;
}

has_session : logged_in.sessions ≡ ("key", row) ∷ []
unfolding begin_login finish_login consume verified_identity validate_access_token validate_id_token
    decode check_header check_claims check_nonce is_authorized_party check_access_hash scopes_of
    identity resolve_principal find_principal sorted_set insert_unique lookup insert
has_session = refl

accepted :
    (authenticate_session ops settings "key" 7 logged_in).0
    ≡ ok (session_context ops settings row alice)
unfolding authenticate_session live_session begin_login finish_login consume verified_identity
    validate_access_token validate_id_token decode check_header check_claims check_nonce
    is_authorized_party check_access_hash scopes_of identity resolve_principal find_principal
    sorted_set insert_unique lookup insert
accepted = refl

revokes : (revoke_session ops settings (some "key") 8 logged_in).0 ≡ true
unfolding revoke_session begin_login finish_login consume verified_identity validate_access_token
    validate_id_token decode check_header check_claims check_nonce is_authorized_party
    check_access_hash scopes_of identity resolve_principal find_principal sorted_set insert_unique
    lookup insert
revokes = refl

revoked_stays_out_example :
    authenticate_session ops settings "key" 9
      (revoke_session ops settings (some "key") 8 logged_in).1
    ≡ (err browser_session_invalid, (revoke_session ops settings (some "key") 8 logged_in).1)
revoked_stays_out_example =
    revoked_stays_out ops settings "key" 8 9 logged_in
      (revoke_session ops settings (some "key") 8 logged_in).1 revokes here

login_once_example : complete_login ops settings provider "s" "code2" draw 7 logged_in ≡ (
  err (
      if has_size 500 "s" && has_size 4000 "code2"
      then oidc_state_invalid
      else oidc_callback_invalid),
  logged_in,
)
login_once_example =
    login_once ops settings provider "s" "code" draw 6 transaction begun_db logged_in here provider
      "code2" draw 7

authenticate_session-IsAuthenticated_example :
    (s : BrowserAuthSession) × (p : Principal) × (session_context ops settings row alice
      ≡ session_context ops settings s p)
    × (IsLive ops settings "key" 7 logged_in s p)
    × (7 < s.created_at + minutes 480)
authenticate_session-IsAuthenticated_example =
    authenticate_session-IsAuthenticated ops settings empty logged_in "key" 7
      (session_context ops settings row alice) refl
      (next (next here (beginning secrets 5)) (callback provider "s" "code" draw 6 transaction))
      accepted

abbrev callback_with : String → String → Callback ℕ
callback_with login_code secret = record {
  provider = provider;
  login_code = login_code;
  draw = record draw { session_secret = secret };
  now = 6;
  token = record {
    issuer = "idp";
    subject = "alice";
    scopes = "exam" ∷ [];
    issued_at = 1000000;
    expires_at = 1000000;
    display_name = none;
    email = none;
    nonce = some "n";
  };
}

abbrev first : Callback ℕ
first = callback_with "code" "key"

abbrev second : Callback ℕ
second = callback_with "code2" "key2"

other_transaction : reads ops settings "s" transaction alice second begun_db ≡ ok transaction
unfolding begin_login open_transaction lookup insert
other_transaction = refl

verified_first : verifies ops settings "s" transaction alice first ≡ ok first.token
unfolding verified_identity validate_access_token validate_id_token decode check_header check_claims
    check_nonce is_authorized_party check_access_hash scopes_of identity lookup
verified_first = refl

verified_second : verifies ops settings "s" transaction alice second ≡ ok second.token
unfolding verified_identity validate_access_token validate_id_token decode check_header check_claims
    check_nonce is_authorized_party check_access_hash scopes_of identity lookup
verified_second = refl

known : find_principal "idp" "alice" begun_db.principals ≡ some alice
unfolding begin_login find_principal lookup
known = refl

no_sessions : begun_db.sessions ≡ []
unfolding begin_login lookup
no_sessions = refl

free : (key : String) → lookup key begun_db.sessions ≡ none
unfolding lookup
free key = ap (lookup key) no_sessions

overlapping_callbacks_example :
    ((finishes ops settings "s" transaction alice first begun_db).0
      ≡ ok (completes ops settings "s" transaction alice first))
    × ((finishes ops settings "s" transaction alice second
          (finishes ops settings "s" transaction alice first begun_db).1).0
        ≡ ok (completes ops settings "s" transaction alice second))
overlapping_callbacks_example =
    overlapping_callbacks ops settings "s" transaction alice begun_db first second refl
      read_transaction other_transaction verified_first verified_second known known (free "key")
      (free "key2") refl
