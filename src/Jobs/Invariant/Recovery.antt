-- ===== src/Jobs/Invariant/Recovery.antt =====
-- The recovery loops keep the table well-formed.
use ai_examiner.Prelude.{
  keep, All, All-keep, All-take, Dict, AllValues, AllValues-insert, ℕ, String, List, [], ◌∷◌, arith,
}
use ai_examiner.Jobs.Model.{BackgroundJob, Db, Settings, put_job}
use ai_examiner.Jobs.Control.Order.{order_by_created-All}
use ai_examiner.Jobs.Control.{
  order_by_created, rows, is_stale, stale_jobs, recovered, put_recovered, recover_all,
  recover_stale_jobs, is_orphaned, noted, note_all, orphaned_jobs, recover_orphaned_queued_jobs,
}
use ai_examiner.Jobs.Invariant.{IsWellFormed, AllWellFormed, recovered-IsWellFormed}

rows-All : (jobs : Dict BackgroundJob) → AllValues IsWellFormed jobs → All IsWellFormed (rows jobs)
rows-All [] h = tt
rows-All ((k, j) ∷ jobs) (w, h) = (w, rows-All jobs h)

put_recovered-AllWellFormed :
    (job : BackgroundJob) (db : Db)
    → IsWellFormed job
    → AllWellFormed db
    → AllWellFormed (put_recovered job db)
put_recovered-AllWellFormed job db w all = AllValues-insert IsWellFormed job.id job db.jobs w all

recover_all-AllWellFormed :
    (now : ℕ) (js : List BackgroundJob) (db : Db)
    → All IsWellFormed js
    → AllWellFormed db
    → AllWellFormed (recover_all now js db)
unfolding recover_all
recover_all-AllWellFormed now [] db h all = all
recover_all-AllWellFormed now (j ∷ js) db (w, h) all =
    recover_all-AllWellFormed now js (put_recovered (recovered now j) db) h
      (put_recovered-AllWellFormed (recovered now j) db (recovered-IsWellFormed now j w) all)

noted-IsWellFormed : (now : ℕ) (j : BackgroundJob) → IsWellFormed j → IsWellFormed (noted now j)
noted-IsWellFormed now j w = ground arith

note_all-AllWellFormed :
    (now : ℕ) (js : List BackgroundJob) (db : Db)
    → All IsWellFormed js
    → AllWellFormed db
    → AllWellFormed (note_all now js db)
unfolding note_all
note_all-AllWellFormed now [] db h all = all
note_all-AllWellFormed now (j ∷ js) db (w, h) all =
    note_all-AllWellFormed now js (put_job (noted now j) db) h
      (AllValues-insert IsWellFormed j.id (noted now j) db.jobs (noted-IsWellFormed now j w) all)

pub recover_stale_jobs-AllWellFormed :
    (settings : Settings) (organization : String) (now : ℕ) (db : Db)
    → AllWellFormed db
    → AllWellFormed (recover_stale_jobs settings organization now db).1
unfolding recover_stale_jobs stale_jobs
recover_stale_jobs-AllWellFormed settings organization now db all =
    let stale = keep (is_stale organization now) (rows db.jobs) in
    recover_all-AllWellFormed now (stale_jobs settings organization now db) db
      (All-take IsWellFormed settings.job_recovery_batch_size (order_by_created stale) (
        order_by_created-All IsWellFormed stale (
          All-keep IsWellFormed (is_stale organization now) (rows db.jobs) (rows-All db.jobs all))))
      all

pub recover_orphaned_queued_jobs-AllWellFormed :
    (settings : Settings) (organization : String) (now : ℕ) (db : Db)
    → AllWellFormed db
    → AllWellFormed (recover_orphaned_queued_jobs settings organization now db).1
unfolding recover_orphaned_queued_jobs orphaned_jobs
recover_orphaned_queued_jobs-AllWellFormed settings organization now db all =
    let orphaned = keep (is_orphaned settings organization now) (rows db.jobs) in
    note_all-AllWellFormed now (orphaned_jobs settings organization now db) db
      (All-take IsWellFormed settings.job_recovery_batch_size (order_by_created orphaned) (
        order_by_created-All IsWellFormed orphaned (
          All-keep IsWellFormed (is_orphaned settings organization now) (rows db.jobs)
            (rows-All db.jobs all))))
      all
