-- ===== src/Governance/OpenRows.antt =====
-- The open rows of the usage ledger, and the writes of
-- src/ai_examiner/services/model_governance.py that close them.
use mathlib.Core.Path.{subst}
use ai_examiner.Prelude.{
  Bool-cases, str_eq_refl, Dict, lookup, insert, AllValues, lookup-insert_self, ℕ, String, ◌≡◌,
  refl, sym, inl, inr, false, some, [], ◌∷◌, str_eq,
}
use ai_examiner.Governance.Limiter.{Code}
use ai_examiner.Governance.Ledger.{
  ModelUsageLedger, GovernanceDb, ProviderResult, is_reserved, denied_row, deny_reserved,
  settled_row, settle_ledger, failed_row, fail_ledger,
}

abbrev pub IsClosed : ModelUsageLedger → Type 0
IsClosed e = is_reserved e.status ≡ false

abbrev pub AllClosed : GovernanceDb → Type 0
AllClosed db = AllValues IsClosed db.ledger

-- One row may be open, the others are closed.
pub record OneOpen (id : String) (db : GovernanceDb) : Type 0 where
  pub rows : Dict ModelUsageLedger
  pub row : ModelUsageLedger
  pub written : db.ledger ≡ insert id row rows
  pub own : row.id ≡ id
  pub closed : AllValues IsClosed rows

insert_over-IsClosed :
    (k : String) (v w : ModelUsageLedger) (rows : Dict ModelUsageLedger)
    → IsClosed w
    → AllValues IsClosed rows
    → AllValues IsClosed (insert k w (insert k v rows))
unfolding insert
insert_over-IsClosed k v w [] c h = rw (str_eq_refl k) (c, tt)
insert_over-IsClosed k v w ((j, u) ∷ rows) c (d, h) = elim (Bool-cases (str_eq j k)) [
  | inl same ↦ rw (same, str_eq_refl k) (c, h)
  | inr apart ↦ rw (apart, apart) (d, insert_over-IsClosed k v w rows c h)
]

-- Closing the open row closes all.
close :
    (id : String) (db : GovernanceDb) (o : OneOpen id db) (row' : ModelUsageLedger)
    → row'.id ≡ id
    → IsClosed row'
    → AllValues IsClosed (insert row'.id row' db.ledger)
close id db o row' same c =
    let over : AllValues IsClosed (insert id row' db.ledger) =
      rw (o.written) (insert_over-IsClosed id o.row row' o.rows c o.closed) in
    subst (λ k. AllValues IsClosed (insert k row' db.ledger)) (sym same) over

found_open :
    (id : String) (db : GovernanceDb) (o : OneOpen id db) → lookup id db.ledger ≡ some o.row
found_open id db o = rw (o.written) (lookup-insert_self id o.row o.rows)

pub deny-closes :
    (id : String) (reason : Code) (now : ℕ) (db : GovernanceDb)
    → OneOpen id db
    → AllClosed (deny_reserved id reason now db)
unfolding deny_reserved denied_row
deny-closes id reason now db o =
    rw (found_open id db o) (close id db o (denied_row reason now o.row) o.own refl)

pub fail-closes :
    (id : String) (now : ℕ) (db : GovernanceDb) → OneOpen id db → AllClosed (fail_ledger id now db)
unfolding fail_ledger failed_row
fail-closes id now db o = rw (found_open id db o) (close id db o (failed_row now o.row) o.own refl)

pub settle-closes :
    (id : String) (r : ProviderResult) (now : ℕ) (db : GovernanceDb)
    → OneOpen id db
    → AllClosed (settle_ledger id r now db).1
unfolding settle_ledger settled_row
settle-closes id r now db o =
    rw (found_open id db o) (close id db o (settled_row r now o.row) o.own refl)
