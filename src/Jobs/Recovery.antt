-- ===== src/Jobs/Recovery.antt =====
-- What `recover_stale_jobs` of src/ai_examiner/services/job_control.py does to the table.
use ai_examiner.Prelude.{
  is_some, keep, All, Dict, lookup, ℕ, ◌≤◌, ◌<◌, String, ◌≡◌, ◌⊎◌, true, false, none, some, List,
  [], ◌∷◌, map, str_eq,
}
use ai_examiner.Jobs.Model.{
  running, retry_scheduled, cancelled, dead_letter, BackgroundJob, Db, Settings,
}
use ai_examiner.Jobs.Lease.{due}
use ai_examiner.Jobs.Control.{rows, is_stale, recovered}

-- What recovery makes of one row.
pub record IsRecovered (organization : String) (now : ℕ) (j : BackgroundJob) : Type 0 where
  pub own : str_eq j.organization_id organization ≡ true
  pub was_running : j.status ≡ running
  pub expired : due j.lease_expires_at now ≡ true
  pub released : (recovered now j).lease_token ≡ none
  pub ending :
      (((recovered now j).status ≡ cancelled) × (is_some j.cancel_requested_at ≡ true))
      ⊎ ((((recovered now j).status ≡ dead_letter) × (j.max_attempts ≤ j.attempt_count))
          ⊎ (((recovered now j).status ≡ retry_scheduled)
              × ((j.attempt_count < j.max_attempts)
                  × ((recovered now j).next_attempt_at ≡ some now))))

-- A table whose rows stand under their identifiers, each once.
unfoldable pub IsTable : Dict BackgroundJob → Type 0
IsTable [] = Unit
IsTable ((key, j) ∷ rest) =
    (j.id ≡ key) × (All (λ entry. str_eq entry.0 key ≡ false) rest × IsTable rest)

abbrev IsStored : Dict BackgroundJob → BackgroundJob → Type 0
IsStored jobs j = lookup j.id jobs ≡ some j

abbrev pub ids : List BackgroundJob → List String
ids js = map (λ j. j.id) js

module _ (settings : Settings) (organization : String) (now : ℕ) (db : Db) where
  -- The rows that the query finds, and those that one call takes.
  abbrev pub stale : List BackgroundJob
  stale = keep (is_stale organization now) (rows db.jobs)
