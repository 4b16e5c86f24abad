-- ===== src/Examples/Jobs.antt =====
-- A worker on two jobs, one of which fails for good.
use one_marketplace.Base.{
  ℕ, ◌≡◌, ◌<◌, refl, none, some, List, [], ◌∷◌, arith, ◌-◌, ◌==◌, if◌then◌else◌,
}
use one_marketplace.Base.Text.{codes, text_eq}
use one_marketplace.Base.Table.{first}
use one_marketplace.Entities.{Job}
use one_marketplace.JobWorker.{
  Worker, WorkerStats, JobHandler, is_pending, is_waiting, run_worker, no_stats,
}
use one_marketplace.JobWorker.Drain.{DistinctJobs, work_left, Drained, run_worker-Drained}
use one_marketplace.Examples.Shop.{job}

abbrev worker : Worker
worker = record { name = codes "w1"; queue = codes "default"; max_attempts = 3 }

abbrev handler : JobHandler
handler claim = if claim.id == 2 then some (codes "boom") else none

abbrev clock : ℕ → ℕ
clock fuel = 9000 - fuel

abbrev jobs : List Job
jobs = job 1 ∷ job 2 ∷ []

jobs-DistinctJobs : DistinctJobs jobs
unfolding first
jobs-DistinctJobs = (refl, (refl, tt))

little-work_left : work_left worker jobs < 7
unfolding is_pending is_waiting text_eq
little-work_left = omega arith

run_worker-Drained_example :
    (r : WorkerStats × List Job) × (run_worker 7 worker handler clock no_stats jobs ≡ some r)
    × Drained worker no_stats jobs r
run_worker-Drained_example =
    run_worker-Drained 7 worker handler clock no_stats jobs jobs-DistinctJobs little-work_left
