-- ===== src/Jobs/Store.antt =====
-- The statement `update(BackgroundJob).where(...).values(...)` on the row of one key, with its
-- `rowcount`, as src/ai_examiner/services/job_control.py issues it: the test and the assignment are
-- one atomic step on the row as it is then.
use ai_examiner.Prelude.{
  if◌then◌else◌, Bool-cases, Option-cases, lookup, insert, AllValues, AllValues-insert,
  AllValues-lookup, ℕ, String, ◌≡◌, inl, inr, Bool, true, false, Option, none, some,
}
use ai_examiner.Jobs.Model.{BackgroundJob, Db}

abbrev pub update_found :
    String
    → (BackgroundJob → Bool)
    → (BackgroundJob → BackgroundJob)
    → Option BackgroundJob
    → Db
    → ℕ × Db
update_found k test values none db = (0, db)
update_found k test values (some row) db =
    if test row then (1, record db { jobs = insert k (values row) db.jobs }) else (0, db)

unfoldable pub update_where :
    String → (BackgroundJob → Bool) → (BackgroundJob → BackgroundJob) → Db → ℕ × Db
update_where k test values db = update_found k test values (lookup k db.jobs) db

module _ (k : String) (test : BackgroundJob → Bool) (values : BackgroundJob → BackgroundJob)
    (db : Db) where
  -- A row that passes is assigned, and counted.
  pub update_where_hit :
      (row : BackgroundJob)
      → lookup k db.jobs ≡ some row
      → test row ≡ true
      → update_where k test values db ≡ (1, record db { jobs = insert k (values row) db.jobs })
  unfolding update_where
  update_where_hit row found pass = rw (found, pass)

  -- A row that fails is left as it was.
  pub update_where_miss :
      (row : BackgroundJob)
      → lookup k db.jobs ≡ some row
      → test row ≡ false
      → update_where k test values db ≡ (0, db)
  unfolding update_where
  update_where_miss row found fail = rw (found, fail)

  pub update_where-none : lookup k db.jobs ≡ none → update_where k test values db ≡ (0, db)
  unfolding update_where
  update_where-none gone = rw gone

  -- What holds of every row holds after the statement if the assignment keeps it where the test
  -- passes.
  pub update_where-AllValues {κ} :
      (P : BackgroundJob → Type κ)
      → ((row : BackgroundJob) → test row ≡ true → P row → P (values row))
      → AllValues P db.jobs
      → AllValues P (update_where k test values db).1.jobs
  update_where-AllValues P keeps all = elim (Option-cases (lookup k db.jobs)) [
    | inl gone ↦ rw (update_where-none gone) all
    | inr (row, found) ↦ elim (Bool-cases (test row)) [
      | inl pass ↦ rw (update_where_hit row found pass) (
          AllValues-insert P k (values row) db.jobs
            (keeps row pass (AllValues-lookup P k row db.jobs all found)) all)
      | inr fail ↦ rw (update_where_miss row found fail) all
    ]
  ]
