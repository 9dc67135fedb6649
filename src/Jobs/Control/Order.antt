-- ===== src/Jobs/Control/Order.antt =====
-- The order of a query keeps what holds of every row.
use ai_examiner.Prelude.{leb, Bool-cases, All, inl, inr, List, [], ◌∷◌}
use ai_examiner.Jobs.Model.{BackgroundJob}
use ai_examiner.Jobs.Control.{insert_by_created, order_by_created}

module _ {κ} (P : BackgroundJob → Type κ) where
  insert_by_created-All :
      (job : BackgroundJob) (js : List BackgroundJob)
      → P job
      → All P js
      → All P (insert_by_created job js)
  unfolding insert_by_created
  insert_by_created-All job [] w h = (w, tt)
  insert_by_created-All job (j ∷ js) w (v, h) =
      elim (Bool-cases (leb job.created_at j.created_at)) [
        | inl before ↦ rw before (w, (v, h))
        | inr after ↦ rw after (v, insert_by_created-All job js w h)
      ]

  pub order_by_created-All : (js : List BackgroundJob) → All P js → All P (order_by_created js)
  unfolding order_by_created
  order_by_created-All [] h = tt
  order_by_created-All (j ∷ js) (w, h) =
      insert_by_created-All j (order_by_created js) w (order_by_created-All js h)
