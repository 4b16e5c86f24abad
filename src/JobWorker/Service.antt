-- ===== src/JobWorker/Service.antt =====
-- services/job-worker.service.ts. A worker that runs alone finds no row locked, so `SKIP LOCKED`
-- skips none. The handler is a parameter: the message with which it throws, or none.
use one_marketplace.Base.{
  ℕ, zero, suc, ◌+◌, Bool, true, false, ◌&&◌, Option, none, some, List, ltb, leb, ◌==◌,
  if◌then◌else◌,
}
use one_marketplace.Base.Text.{Text, text_eq}
use one_marketplace.Base.Table.{select, count, update}
use one_marketplace.Base.Ordered.{least}
use one_marketplace.Entities.{Job, JobStatus}

pub record ClaimedJob : Type 0 where
  pub id : ℕ
  pub type : Text
  pub payload : Text
  pub attempts : ℕ

abbrev pub JobHandler : Type 0
JobHandler = ClaimedJob → Option Text

pub data JobOutcome : Type 0 where
  done retry failed : JobOutcome

pub record WorkerStats : Type 0 where
  pub done : ℕ
  pub retried : ℕ
  pub failed : ℕ

-- The worker's name and options.
pub record Worker : Type 0 where
  pub name : Text
  pub queue : Text
  pub max_attempts : ℕ

abbrev pub default_max_attempts : ℕ
default_max_attempts = 3

unfoldable pub is_waiting : JobStatus → Bool
is_waiting JobStatus.waiting = true
is_waiting _ = false

-- WHERE status = 'pending' AND queue = $1
unfoldable pub is_pending : Text → Job → Bool
unfolding is_waiting
is_pending queue job = is_waiting job.status && text_eq job.queue queue

unfoldable pub next_job : Text → List Job → Option Job
next_job queue jobs = least (λ a b. ltb a.id b.id) (select (is_pending queue) jobs)

abbrev pub claimed : Job → ClaimedJob
claimed job = record {
  id = job.id;
  type = job.type;
  payload = job.payload;
  attempts = job.attempts;
}

-- The UPDATE after the handler threw.
unfoldable pub mark_thrown : Worker → Text → Job → Job
mark_thrown worker message job = record job {
  attempts = job.attempts + 1;
  last_error = some message;
  worker = some worker.name;
  status =
      if leb worker.max_attempts (job.attempts + 1) then JobStatus.failed else JobStatus.waiting;
}

-- The UPDATE after the handler returned.
unfoldable pub mark_done : Worker → ℕ → Job → Job
mark_done worker now job = record job {
  status = JobStatus.done;
  processed = job.processed + 1;
  attempts = job.attempts + 1;
  worker = some worker.name;
  processed_at = some now;
}

-- rows[0]?.status === 'failed' ? 'failed' : 'retry'
unfoldable pub thrown_outcome : JobStatus → JobOutcome
thrown_outcome JobStatus.failed = JobOutcome.failed
thrown_outcome _ = JobOutcome.retry

unfoldable pub settle : Worker → ℕ → Job → Option Text → List Job → JobOutcome × List Job
unfolding mark_thrown mark_done thrown_outcome
settle worker now job none jobs =
    (JobOutcome.done, update (λ j. j.id == job.id) (mark_done worker now) jobs)
settle worker now job (some message) jobs = (
  thrown_outcome (mark_thrown worker message job).status,
  update (λ j. j.id == job.id) (mark_thrown worker message) jobs,
)

unfoldable pub process_next_job : Worker → JobHandler → ℕ → List Job → Option JobOutcome × List Job
unfolding settle
process_next_job worker handler now jobs = elim (next_job worker.queue jobs) [
  | none ↦ (none, jobs)
  | some job ↦
      let (outcome, jobs') = settle worker now job (handler (claimed job)) jobs in
      (some outcome, jobs')
]

unfoldable pub count_pending_jobs : Text → List Job → ℕ
count_pending_jobs queue = count (is_pending queue)

unfoldable pub tally : JobOutcome → WorkerStats → WorkerStats
tally done stats = record stats { done = stats.done + 1 }
tally retry stats = record stats { retried = stats.retried + 1 }
tally failed stats = record stats { failed = stats.failed + 1 }

-- The loop of `runWorker`; `none` means that the fuel ran out. `clock` is the time of each round.
unfoldable pub run_worker :
    ℕ → Worker → JobHandler → (ℕ → ℕ) → WorkerStats → List Job → Option (WorkerStats × List Job)
unfolding process_next_job count_pending_jobs tally
run_worker zero worker handler clock stats jobs = none
run_worker (suc fuel) worker handler clock stats jobs =
    let (outcome, jobs') = process_next_job worker handler (clock fuel) jobs in
    elim outcome [
      | some o ↦ run_worker fuel worker handler clock (tally o stats) jobs'
      | none ↦ elim (count_pending_jobs worker.queue jobs') [
        | zero ↦ some (stats, jobs')
        | suc n ↦ run_worker fuel worker handler clock stats jobs'
      ]
    ]

abbrev pub no_stats : WorkerStats
no_stats = record { done = 0; retried = 0; failed = 0 }
