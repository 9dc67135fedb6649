-- ===== src/Identity/Tokens.antt =====
-- `OIDCTokenValidator` of src/ai_examiner/services/oidc.py. The token library, which verifies the
-- signature and the registered claims, the hashes, and the text methods are arguments, and so is the
-- answer of `OIDCDiscoveryCache.signing_key`.
use ai_examiner.Prelude.{
  leb, if◌then◌else◌, is_some, or_default, opt_eq, truthy, exists, contains, Dict, lookup, Result,
  ok, err, ◌>>=◌, ◌>>◌, guard, require, ℕ, zero, ◌+◌, ◌*◌, String, Bool, true, false, not, ◌&&◌,
  ◌||◌, Option, none, some, List, [], ◌∷◌, str_eq,
}
use ai_examiner.Jobs.Model.{Json, null, bool, int, text, arr, obj, Items, nil, item, end}
use ai_examiner.Jobs.Lease.{truncate}
use ai_examiner.Identity.Model.{
  OidcSettings, OidcError, token_size_invalid, token_header_invalid, token_algorithm_denied,
  token_type_denied, token_kid_invalid, token_remote_key_header_denied,
  token_claim_or_signature_invalid, token_subject_invalid, id_token_nonce_missing,
  id_token_authorized_party_invalid, token_iat_in_future, token_scope_invalid,
  token_scope_insufficient, id_token_nonce_mismatch, id_token_access_hash_invalid, has_size,
}

-- The library's calls: `microseconds` is `float(value)` times a million, `jwt_decode` gets the token,
-- the key, the audience and the time.
pub record TokenOps (Key : Type 0) : Type 0 where
  pub show : Json → String
  pub lower : String → String
  pub split : String → List String
  pub sha256 : String → String
  pub microseconds : Json → ℕ
  pub unverified_header : String → Option (Dict Json)
  pub jwt_decode : String → Key → String → ℕ → Option (Dict Json)
  pub access_hash : String → String → Option String

pub record ValidatedToken : Type 0 where
  pub issuer : String
  pub subject : String
  pub scopes : List String
  pub issued_at : ℕ
  pub expires_at : ℕ
  pub display_name : Option String
  pub email : Option String
  pub nonce : Option String

-- `value if isinstance(value, str) else None`
abbrev pub text_of : Option Json → Option String
text_of (some (text s)) = some s
text_of _ = none

-- `value is not None`
abbrev pub is_given : Option Json → Bool
is_given none = false
is_given (some null) = false
is_given (some _) = true

-- `isinstance(aud, list) and len(aud) > 1`
abbrev pub is_many : Option Json → Bool
is_many (some (arr (item a (item b rest)))) = true
is_many _ = false

abbrev pub all_texts : Items → Option (List String)
all_texts nil = some []
all_texts (item (text s) rest) = elim (all_texts rest) [ none ↦ none | some ss ↦ some (s ∷ ss) ]
all_texts (item _ rest) = none

module _ {Key : Type 0} (ops : TokenOps Key) where
  -- `str(value)` and `str(value or "")`
  abbrev pub as_text : Option Json → String
  as_text none = ops.show null
  as_text (some (text s)) = s
  as_text (some value) = ops.show value

  abbrev pub text_or_empty : Option Json → String
  text_or_empty none = ""
  text_or_empty (some null) = ""
  text_or_empty (some (bool false)) = ""
  text_or_empty (some (int zero)) = ""
  text_or_empty (some (arr nil)) = ""
  text_or_empty (some (obj end)) = ""
  text_or_empty value = as_text value

  -- The checks of the header, which answer the key's identifier and the algorithm.
  unfoldable pub check_header :
      OidcSettings → List String → Dict Json → Result OidcError (String × String)
  check_header settings allowed_types header =
      let algorithm = or_default (text_of (lookup "alg" header)) "" in
      let kid = or_default (text_of (lookup "kid" header)) "" in
      do
        guard
            (is_some (text_of (lookup "alg" header))
              && contains settings.oidc_algorithm_allowlist algorithm)
            token_algorithm_denied
        guard (contains allowed_types (ops.lower (text_or_empty (lookup "typ" header))))
            token_type_denied
        guard (has_size 200 kid) token_kid_invalid
        guard (not (is_some (lookup "jku" header) || is_some (lookup "x5u" header)))
            token_remote_key_header_denied
        ok (kid, algorithm)

  -- The nonce and the authorized party of an identity token.
  unfoldable pub is_authorized_party : String → Dict Json → Bool
  is_authorized_party audience claims =
      let same = opt_eq (text_of (lookup "azp" claims)) (some audience) in
      if is_many (lookup "aud" claims) then same else not (is_given (lookup "azp" claims)) || same

  unfoldable pub check_nonce : Bool → String → Dict Json → Result OidcError (Unit {0})
  check_nonce false audience claims = ok tt
  check_nonce true audience claims = do
    guard (truthy (text_of (lookup "nonce" claims))) id_token_nonce_missing
    guard (is_authorized_party audience claims) id_token_authorized_party_invalid

  abbrev pub claim_time : String → Dict Json → ℕ
  claim_time name claims = ops.microseconds (or_default (lookup name claims) null)

  unfoldable pub check_claims :
      OidcSettings → Bool → String → ℕ → Dict Json → Result OidcError (Dict Json)
  check_claims settings require_nonce audience now claims = do
    guard (has_size 500 (or_default (text_of (lookup "sub" claims)) "")) token_subject_invalid
    check_nonce require_nonce audience claims
    guard (leb (claim_time "iat" claims) (now + settings.oidc_clock_skew_seconds * 1000000))
        token_iat_in_future
    ok claims

  unfoldable pub decode :
      OidcSettings
      → (String → String → Result OidcError Key)
      → ℕ
      → String
      → String
      → List String
      → Bool
      → Result OidcError (Dict Json)
  decode settings signing_key now token audience allowed_types require_nonce = do
    guard (has_size 16384 token) token_size_invalid
    header ← require (ops.unverified_header token) token_header_invalid
    named ← check_header settings allowed_types header
    key ← signing_key named.0 named.1
    claims ← require (ops.jwt_decode token key audience now) token_claim_or_signature_invalid
    check_claims settings require_nonce audience now claims

  abbrev pub short_text : ℕ → Option String → Option String
  short_text size none = none
  short_text size (some s) = if str_eq s "" then none else some (truncate size s)

  -- `claims.get("name") or claims.get("preferred_username")`
  abbrev pub name_of : Dict Json → Option String
  name_of claims =
      if str_eq (text_or_empty (lookup "name" claims)) ""
      then text_of (lookup "preferred_username" claims)
      else text_of (lookup "name" claims)

  unfoldable pub identity : List String → Dict Json → ValidatedToken
  identity scopes claims = record {
    issuer = as_text (lookup "iss" claims);
    subject = as_text (lookup "sub" claims);
    scopes = scopes;
    issued_at = claim_time "iat" claims;
    expires_at = claim_time "exp" claims;
    display_name = short_text 200 (name_of claims);
    email = short_text 320 (text_of (lookup "email" claims));
    nonce = text_of (lookup "nonce" claims);
  }

  -- `claims.get("scope", claims.get("scp", ""))`
  abbrev pub raw_scope : Dict Json → Json
  raw_scope claims = or_default (lookup "scope" claims) (or_default (lookup "scp" claims) (text ""))

  unfoldable pub scopes_of : Json → Result OidcError (List String)
  scopes_of (text s) = ok (ops.split s)
  scopes_of (arr items) = require (all_texts items) token_scope_invalid
  scopes_of _ = err token_scope_invalid

  unfoldable pub validate_access_token :
      OidcSettings
      → (String → String → Result OidcError Key)
      → ℕ
      → String
      → Result OidcError ValidatedToken
  validate_access_token settings signing_key now token = do
    claims ←
        decode settings signing_key now token (or_default settings.oidc_audience "")
          settings.oidc_access_token_type_allowlist false
    scopes ← scopes_of (raw_scope claims)
    guard (not (exists (λ scope. not (contains scopes scope)) settings.oidc_required_scope_set))
        token_scope_insufficient
    ok (identity scopes claims)

  -- `at_hash`, when the token has one
  unfoldable pub check_access_hash : String → String → Dict Json → Result OidcError (Unit {0})
  check_access_hash token access_token claims =
      if is_given (lookup "at_hash" claims)
      then guard
          (truthy (text_of (lookup "at_hash" claims))
            && (is_some (ops.access_hash token access_token)
                && opt_eq (text_of (lookup "at_hash" claims)) (ops.access_hash token access_token)))
          id_token_access_hash_invalid
      else ok tt

  unfoldable pub validate_id_token :
      OidcSettings
      → (String → String → Result OidcError Key)
      → ℕ
      → String
      → String
      → String
      → Result OidcError ValidatedToken
  validate_id_token settings signing_key now token expected_nonce_hash access_token = do
    claims ←
        decode settings signing_key now token (or_default settings.oidc_client_id "") ("jwt" ∷ [])
          true
    guard
        (str_eq (ops.sha256 (or_default (text_of (lookup "nonce" claims)) "")) expected_nonce_hash)
        id_token_nonce_mismatch
    check_access_hash token access_token claims
    ok (identity [] claims)
