-- ===== src/Examples/Limits.antt =====
-- Requests of a client, retries of a transaction, and a cleanup.
use one_marketplace.Base.{
  ℕ, ◌≡◌, ◌≤◌, some, List, [], ◌∷◌, Outcome, ok, err, arith, leb, if◌then◌else◌,
}
use one_marketplace.Base.Text.{codes}
use one_marketplace.Base.Table.{count}
use one_marketplace.RateLimiter.{Redis, answers, unanswered, rate_limit, no_hits}
use one_marketplace.RateLimiter.Window.{hits, is_within, hits-le-rate_limit}
use one_marketplace.WithRetry.{Thrown, object, string, absent, RetryOptions, Retries, with_retry}
use one_marketplace.WithRetry.Attempts.{Settled, with_retry-Settled}

abbrev requests : List (Redis × ℕ)
requests = (answers, 100) ∷ (unanswered, 200) ∷ (answers, 200) ∷ []

hits-le-rate_limit_example : count (is_within 300) (hits requests [] no_hits).0 ≤ rate_limit
hits-le-rate_limit_example =
    hits-le-rate_limit requests 300 (omega arith, (omega arith, (omega arith, tt)))

abbrev options : RetryOptions
options = record { max_attempts = 5; base_delay_ms = 20; jitter = λ attempt. attempt }

-- The first two attempts meet a deadlock.
abbrev operation : ℕ → Outcome Thrown ℕ
operation attempt =
    if leb attempt 2 then err (object absent (string (codes "40P01"))) else ok attempt

with_retry-Settled_example :
    (r : Retries ℕ) × (with_retry options operation ≡ some r) × Settled options operation 1 r
with_retry-Settled_example = with_retry-Settled options operation
