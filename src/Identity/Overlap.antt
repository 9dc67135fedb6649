-- ===== src/Identity/Overlap.antt =====
-- Two callbacks of one login in src/ai_examiner/services/oidc.py. `complete_login` reads
-- `consumed_at` and sets it in a later statement, without a condition on the row.
use ai_examiner.Prelude.{
  lookup, insert, lookup-insert, Result, ok, ℕ, String, ◌≡◌, refl, ap, ◌∙◌, true, false, none, some,
  str_eq,
}
use ai_examiner.Identity.Model.{
  Principal, OidcLoginTransaction, IdentityDb, OidcSettings, OidcError, is_active_status, add_at,
}
use ai_examiner.Identity.Tokens.{TokenOps, ValidatedToken}
use ai_examiner.Identity.Principals.{find_principal, only_active, or_provision, resolve_principal}
use ai_examiner.Identity.Login.{
  OidcProvider, LoginComplete, SessionDraw, with_session, open_transaction, consume,
  verified_identity, new_session, open_session, admit_identity, finish_login,
}

only_active-ok : (p : Principal) → is_active_status p.status ≡ true → only_active p ≡ ok p
only_active-ok p active = rw active refl

-- What a callback brings and draws, and the identity that its tokens name.
pub record Callback (Key : Type 0) : Type 0 where
  pub provider : OidcProvider Key
  pub login_code : String
  pub draw : SessionDraw
  pub now : ℕ
  pub token : ValidatedToken

module _ {Key : Type 0} (ops : TokenOps Key) (settings : OidcSettings) (state : String)
    (tx : OidcLoginTransaction) (p : Principal) where
  abbrev pub completes : Callback Key → LoginComplete
  completes c = record {
    principal_id = p.id;
    session_token = c.draw.session_secret;
    expires_at = (new_session ops settings c.token p c.draw).expires_at;
  }

  abbrev pub secret_hash : Callback Key → String
  secret_hash c = ops.sha256 c.draw.session_secret

  -- The callback from its transaction on.
  abbrev pub finishes : Callback Key → IdentityDb → Result OidcError LoginComplete × IdentityDb
  finishes c db = finish_login ops settings c.provider state c.login_code c.draw c.now tx db

  abbrev pub reads : Callback Key → IdentityDb → Result OidcError OidcLoginTransaction
  reads c db = open_transaction ops settings state c.login_code c.now db

  abbrev pub verifies : Callback Key → Result OidcError ValidatedToken
  verifies c = verified_identity ops settings c.provider tx c.login_code c.now

  abbrev with_opened : Callback Key → IdentityDb → IdentityDb
  with_opened c db = record (consume ops settings state tx c.now db) {
    sessions = insert (secret_hash c) (new_session ops settings c.token p c.draw) db.sessions;
  }

  -- A callback goes through wherever its principal is known and its secret is fresh.
  finishes-ok :
      (db : IdentityDb) (c : Callback Key)
      → is_active_status p.status ≡ true
      → verifies c ≡ ok c.token
      → find_principal c.token.issuer c.token.subject db.principals ≡ some p
      → lookup (secret_hash c) db.sessions ≡ none
      → finishes c db ≡ (ok (completes c), with_opened c db)
  unfolding finish_login resolve_principal consume
  finishes-ok db c active verified known free =
      let draw = c.draw in
      let db1 = consume ops settings state tx c.now db in
      let s = new_session ops settings c.token p draw in
      ap (admit_identity ops settings draw c.now db1) verified
      ∙ (ap
            (λ o.
              open_session ops settings c.token draw
                (or_provision settings c.token draw.principal_id c.now db1 o))
            known
          ∙ (ap (λ r. open_session ops settings c.token draw (r, db1)) (only_active-ok p active)
              ∙ ap
                  (λ o.
                    with_session s draw.session_secret db1 (add_at (secret_hash c) s db.sessions o))
                  free))

  -- When two callbacks with one state have both read the transaction before either takes it, and the
  -- tokens of both name an active principal that is known, both log in: the second is answered as if
  -- the first had not been there. The secrets that the two draw are fresh and differ.
  pub overlapping_callbacks :
      (db : IdentityDb) (first second : Callback Key)
      → is_active_status p.status ≡ true
      → reads first db ≡ ok tx
      → reads second db ≡ ok tx
      → verifies first ≡ ok first.token
      → verifies second ≡ ok second.token
      → find_principal first.token.issuer first.token.subject db.principals ≡ some p
      → find_principal second.token.issuer second.token.subject db.principals ≡ some p
      → lookup (secret_hash first) db.sessions ≡ none
      → lookup (secret_hash second) db.sessions ≡ none
      → str_eq (secret_hash first) (secret_hash second) ≡ false
      → ((finishes first db).0 ≡ ok (completes first))
        × ((finishes second (finishes first db).1).0 ≡ ok (completes second))
  unfolding consume
  overlapping_callbacks db first second active read₁ read₂ verified₁ verified₂ known₁ known₂ free₁
        free₂ differ =
      let one = finishes-ok db first active verified₁ known₁ free₁ in
      let middle = with_opened first db in
      let still_free : lookup (secret_hash second) middle.sessions ≡ none =
        lookup-insert (secret_hash first) (secret_hash second)
          (new_session ops settings first.token p first.draw) db.sessions
        ∙ rw differ free₂ in
      let two = finishes-ok middle second active verified₂ known₂ still_free in
      (ap (λ r. r.0) one, ap (λ r. (finishes second r.1).0) one ∙ ap (λ r. r.0) two)
