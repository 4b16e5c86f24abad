-- ===== src/JobWorker/Drain.antt =====
-- A worker that runs alone drains its queue, whatever the handler does.
use one_marketplace.Base.{
  ℕ, zero, suc, ◌+◌, ◌-◌, ◌<◌, ◌≡◌, refl, subst, ◌∙◌, Bool, true, false, Option, none, some, List,
  [], ◌∷◌, inl, inr, arith, ltb, ◌==◌, if◌then◌else◌, sum_by, Option-cases,
}
use one_marketplace.Base.Text.{Text}
use one_marketplace.Base.Table.{first, count, update}
use one_marketplace.Base.Keyed.{row_at, DistinctKeys}
use one_marketplace.Base.Ordered.{
  one_if, least-none, least-row, count-update_row, update_row-DistinctKeys,
}
use one_marketplace.Entities.{Job, JobStatus}
use one_marketplace.JobWorker.Service.{
  JobHandler, JobOutcome, WorkerStats, Worker, is_pending, next_job, claimed, mark_thrown,
  mark_done, settle, count_pending_jobs, tally, run_worker,
}

abbrev pub DistinctJobs : List Job → Type 0
DistinctJobs = DistinctKeys (λ j. j.id)

-- How often a job may still be claimed: at least once while it is pending.
abbrev claims_left : Worker → Job → ℕ
claims_left worker job =
    if is_pending worker.queue job then suc (worker.max_attempts - suc job.attempts) else 0

-- The claims that the queue has left.
abbrev pub work_left : Worker → List Job → ℕ
work_left worker = sum_by (claims_left worker)

sum_by-update_absent :
    (f : Job → ℕ) (g : Job → Job) (id : ℕ) (jobs : List Job)
    → row_at (λ j. j.id) id jobs ≡ none
    → sum_by f (update (λ j. j.id == id) g jobs) ≡ sum_by f jobs
unfolding update first
sum_by-update_absent f g id [] h = refl
sum_by-update_absent f g id (x ∷ jobs) h = ground (arith, sum_by-update_absent f g id jobs)

sum_by-update_row :
    (f : Job → ℕ) (g : Job → Job) (id : ℕ) (jobs : List Job) (job : Job)
    → DistinctJobs jobs
    → row_at (λ j. j.id) id jobs ≡ some job
    → sum_by f (update (λ j. j.id == id) g jobs) + f job ≡ sum_by f jobs + f (g job)
unfolding update first
sum_by-update_row f g id [] job d h = absurd (ground arith)
sum_by-update_row f g id (x ∷ jobs) job d h = ground (
  arith,
  λ (e : x.id ≡ id). subst (λ k. row_at (λ j. j.id) k jobs ≡ none) e d.0,
  sum_by-update_row f g id jobs job d.1,
  sum_by-update_absent f g id jobs,
)

abbrev pub is_done : Job → Bool
is_done job = elim job.status [ JobStatus.done ↦ true | _ ↦ false ]

-- Whether an outcome ends its job, and whether it ends it well.
abbrev pub ends : JobOutcome → ℕ
ends JobOutcome.retry = 0
ends _ = 1

abbrev pub ends_well : JobOutcome → ℕ
ends_well JobOutcome.done = 1
ends_well _ = 0

-- What a round that claims a job does to the queue.
record Round (worker : Worker) (outcome : JobOutcome) (jobs after : List Job) : Type 0 where
  less : work_left worker after < work_left worker jobs
  distinct : DistinctJobs after
  pending :
      count (is_pending worker.queue) after + ends outcome ≡ count (is_pending worker.queue) jobs
  finished : count is_done after ≡ count is_done jobs + ends_well outcome

module _ (worker : Worker) (job : Job) (jobs : List Job) (f : Job → Job)
    (outcome : JobOutcome) where
  -- A round from what its update does to the job.
  update-Round :
      ((x : Job) → (f x).id ≡ x.id)
      → DistinctJobs jobs
      → row_at (λ j. j.id) job.id jobs ≡ some job
      → is_pending worker.queue job ≡ true
      → claims_left worker (f job) < claims_left worker job
      → one_if (is_pending worker.queue (f job)) + ends outcome ≡ 1
      → one_if (is_done (f job)) ≡ ends_well outcome
      → is_done job ≡ false
      → Round worker outcome jobs (update (λ j. j.id == job.id) f jobs)
  update-Round keeps d found p less ended well unfinished = record {
    less = omega (arith, sum_by-update_row (claims_left worker) f job.id jobs job d found);
    distinct = update_row-DistinctKeys (λ j. j.id) f keeps job.id jobs d;
    pending = ground (
      arith,
      count-update_row (λ (j : Job). j.id) job.id f (is_pending worker.queue)
          (is_pending worker.queue) (λ x e. refl) jobs job d found,
    );
    finished = ground (
      arith,
      count-update_row (λ (j : Job). j.id) job.id f is_done is_done (λ x e. refl) jobs job d found,
    );
  }

pending-unfinished : (queue : Text) (job : Job) → is_pending queue job ≡ true → is_done job ≡ false
unfolding is_pending
pending-unfinished queue job p = ground arith

settle-Round :
    (worker : Worker) (now : ℕ) (job : Job) (jobs : List Job) (message : Option Text)
    → DistinctJobs jobs
    → row_at (λ j. j.id) job.id jobs ≡ some job
    → is_pending worker.queue job ≡ true
    → Round worker
        (settle worker now job message jobs).0
        jobs
        (settle worker now job message jobs).1
unfolding settle is_pending mark_done mark_thrown
settle-Round worker now job jobs none d found p =
    update-Round worker job jobs (mark_done worker now) JobOutcome.done (λ x. refl) d found p
      (ground arith) (ground arith) refl (pending-unfinished worker.queue job p)
settle-Round worker now job jobs (some message) d found p =
    update-Round worker job jobs (mark_thrown worker message)
      (settle worker now job (some message) jobs).0 (λ x. refl) d found p (ground arith)
      (ground arith) (ground arith) (pending-unfinished worker.queue job p)

-- How a worker's run ends.
pub record Drained (worker : Worker) (stats : WorkerStats) (jobs : List Job)
    (r : WorkerStats × List Job) : Type 0 where
  pub empty : count_pending_jobs worker.queue r.1 ≡ 0
  pub done : count is_done r.1 + stats.done ≡ count is_done jobs + r.0.done
  pub settled :
      r.0.done + r.0.failed ≡ stats.done + stats.failed + count_pending_jobs worker.queue jobs

Drained-step :
    (worker : Worker) (stats : WorkerStats) (outcome : JobOutcome) (jobs after : List Job)
    (r : WorkerStats × List Job)
    → Round worker outcome jobs after
    → Drained worker (tally outcome stats) after r
    → Drained worker stats jobs r
unfolding tally count_pending_jobs
Drained-step worker stats JobOutcome.done jobs after r round d = record {
  empty = d.empty;
  done = omega (arith, round.finished, d.done);
  settled = omega (arith, round.pending, d.settled);
}
Drained-step worker stats JobOutcome.retry jobs after r round d = record {
  empty = d.empty;
  done = omega (arith, round.finished, d.done);
  settled = omega (arith, round.pending, d.settled);
}
Drained-step worker stats JobOutcome.failed jobs after r round d = record {
  empty = d.empty;
  done = omega (arith, round.finished, d.done);
  settled = omega (arith, round.pending, d.settled);
}

process-Round :
    (worker : Worker) (handler : JobHandler) (now : ℕ) (jobs : List Job) (job : Job)
    → DistinctJobs jobs
    → next_job worker.queue jobs ≡ some job
    → Round worker
        (settle worker now job (handler (claimed job)) jobs).0
        jobs
        (settle worker now job (handler (claimed job)) jobs).1
unfolding next_job
process-Round worker handler now jobs job d e =
    let (found, p) =
      least-row (λ (j : Job). j.id) (λ a b. ltb a.id b.id) (is_pending worker.queue) jobs job d e in
    settle-Round worker now job jobs (handler (claimed job)) d found p

next_job-none :
    (queue : Text) (jobs : List Job)
    → next_job queue jobs ≡ none
    → count_pending_jobs queue jobs ≡ 0
unfolding next_job count_pending_jobs
next_job-none queue jobs e = least-none (λ a b. ltb a.id b.id) (is_pending queue) jobs e

run_worker-idle :
    (fuel : ℕ) (worker : Worker) (handler : JobHandler) (clock : ℕ → ℕ) (stats : WorkerStats)
    (jobs : List Job)
    → next_job worker.queue jobs ≡ none
    → count_pending_jobs worker.queue jobs ≡ 0
    → run_worker (suc fuel) worker handler clock stats jobs ≡ some (stats, jobs)
unfolding run_worker
run_worker-idle fuel worker handler clock stats jobs e z = ground arith

run_worker-busy :
    (fuel : ℕ) (worker : Worker) (handler : JobHandler) (clock : ℕ → ℕ) (stats : WorkerStats)
    (jobs : List Job) (job : Job)
    → next_job worker.queue jobs ≡ some job
    → run_worker (suc fuel) worker handler clock stats jobs
      ≡ run_worker fuel worker handler clock
          (tally (settle worker (clock fuel) job (handler (claimed job)) jobs).0 stats)
          (settle worker (clock fuel) job (handler (claimed job)) jobs).1
unfolding run_worker
run_worker-busy fuel worker handler clock stats jobs job e = ground arith

-- From jobs with distinct ids, a worker alone on its queue, with fuel for the claims that are
-- left, stops; then no job of the queue is pending, each that was is done or failed, and the
-- statistics say how many.
pub run_worker-Drained :
    (fuel : ℕ) (worker : Worker) (handler : JobHandler) (clock : ℕ → ℕ) (stats : WorkerStats)
    (jobs : List Job)
    → DistinctJobs jobs
    → work_left worker jobs < fuel
    → (r : WorkerStats × List Job) × (run_worker fuel worker handler clock stats jobs ≡ some r)
      × Drained worker stats jobs r
run_worker-Drained zero worker handler clock stats jobs d h = absurd (omega arith)
run_worker-Drained (suc fuel) worker handler clock stats jobs d h =
    elim (Option-cases (next_job worker.queue jobs)) [
      | inl none_left ↦
          let z = next_job-none worker.queue jobs none_left in
          (
            (stats, jobs),
            run_worker-idle fuel worker handler clock stats jobs none_left z,
            record { empty = z; done = refl; settled = omega (arith, z) },
          )
      | inr (job, found) ↦
          let (outcome, after) = settle worker (clock fuel) job (handler (claimed job)) jobs in
          let round = process-Round worker handler (clock fuel) jobs job d found in
          let (r, result, drained) =
            run_worker-Drained fuel worker handler clock (tally outcome stats) after round.distinct
              (omega (arith, round.less)) in
          (
            r,
            run_worker-busy fuel worker handler clock stats jobs job found ∙ result,
            Drained-step worker stats outcome jobs after r round drained,
          )
    ]
