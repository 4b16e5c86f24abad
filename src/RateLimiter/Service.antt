-- ===== src/RateLimiter/Service.antt =====
-- services/rate-limiter.service.ts: the script that Redis runs, and what the service makes of it.
use one_marketplace.Base.{
  ℕ, ◌+◌, ◌-◌, ◌/◌, Bool, true, false, List, [], ◌∷◌, length, ltb, leb, if◌then◌else◌,
}
use one_marketplace.Base.Table.{select}

abbrev pub rate_limit : ℕ
rate_limit = 10

abbrev pub rate_limit_window_ms : ℕ
rate_limit_window_ms = 10000

-- The sorted set of a client: the scores in ascending order (the members are fresh uuids), and the
-- time at which the key expires.
pub record SortedSet : Type 0 where
  pub scores : List ℕ
  pub expires_at : ℕ

abbrev pub no_hits : SortedSet
no_hits = record { scores = []; expires_at = 0 }

-- An expired key is an empty set.
unfoldable pub visible : ℕ → SortedSet → List ℕ
visible now set = if ltb now set.expires_at then set.scores else []

-- What ZREMRANGEBYSCORE key -inf (now - window) leaves.
unfoldable pub is_recent : ℕ → ℕ → Bool
is_recent now score = ltb now (score + rate_limit_window_ms)

-- ZADD
unfoldable pub add_score : ℕ → List ℕ → List ℕ
add_score score [] = score ∷ []
add_score score (x ∷ xs) =
    let rest = add_score score xs in if leb score x then score ∷ x ∷ xs else x ∷ rest

-- The oldest score, where ZRANGE is called: the set is then not empty.
unfoldable pub oldest : ℕ → List ℕ → ℕ
oldest now [] = now
oldest now (x ∷ xs) = x

-- The script's reply: whether the hit is allowed, and after how long to retry.
unfoldable pub sliding_window : ℕ → SortedSet → (Bool × ℕ) × SortedSet
sliding_window now set =
    let kept = select (is_recent now) (visible now set) in
    if ltb (length kept) rate_limit
    then (
      (true, 0),
      record { scores = add_score now kept; expires_at = now + rate_limit_window_ms },
    )
    else (
      (false, oldest now kept + rate_limit_window_ms - now),
      record { scores = kept; expires_at = set.expires_at },
    )

pub record RateLimitResult : Type 0 where
  pub allowed : Bool
  pub retry_after_seconds : ℕ

-- Math.max(1, Math.ceil(retryAfterMs / 1000))
unfoldable pub to_seconds : ℕ → ℕ
to_seconds ms = let seconds = (ms + 999) / 1000 in if leb 1 seconds then seconds else 1

-- Redis: it answers, it cannot be reached, or its reply is lost.
pub data Redis : Type 0 where
  answers unreachable unanswered : Redis

unfoldable pub hit : Redis → ℕ → SortedSet → RateLimitResult × SortedSet
hit answers now set =
    let ((allowed, retry_after), after) = sliding_window now set in
    (record { allowed = allowed; retry_after_seconds = to_seconds retry_after }, after)
hit unreachable now set = (record { allowed = false; retry_after_seconds = 1 }, set)
hit unanswered now set =
    (record { allowed = false; retry_after_seconds = 1 }, (sliding_window now set).1)
