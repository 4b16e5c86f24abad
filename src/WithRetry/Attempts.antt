-- ===== src/WithRetry/Attempts.antt =====
-- How often `withRetry` (services/with-retry.ts) calls its operation, and what it returns.
use one_marketplace.Base.{
  ℕ, zero, suc, ◌+◌, ◌≤◌, ◌<◌, ◌≡◌, refl, ap, ◌∙◌, true, false, some, inl, inr, ◌⊎◌, List, [], ◌∷◌,
  length, Outcome, err, Outcome-cases, leb, leb→le, arith, Bool-cases,
}
use one_marketplace.WithRetry.Service.{
  Thrown, is_retryable, RetryInfo, RetryOptions, retry_info, Retries, retry_from, with_retry,
}

module _ {A : Type 0} (options : RetryOptions) (operation : ℕ → Outcome Thrown A) where
  -- The retries from an attempt on, up to the last attempt.
  pub IsAnnounced : ℕ → List RetryInfo → Type 0
  IsAnnounced attempt [] = Unit
  IsAnnounced attempt (info ∷ infos) =
      ((e : Thrown) × (operation attempt ≡ err e)
        × (is_retryable e ≡ true)
        × (info ≡ retry_info options attempt e))
      × IsAnnounced (suc attempt) infos

  pub record Settled (attempt : ℕ) (r : Retries A) : Type 0 where
    pub last : r.0 ≡ operation (attempt + length r.1)
    pub announced : IsAnnounced attempt r.1
    pub bounded : attempt ≤ options.max_attempts → attempt + length r.1 ≤ options.max_attempts
    pub given_up :
        (e : Thrown)
        → r.0 ≡ err e
        → (is_retryable e ≡ false) ⊎ (options.max_attempts ≤ attempt + length r.1)

  -- An attempt that returns, or whose error is not retried.
  stop-Settled :
      (attempt : ℕ)
      → ((e : Thrown)
          → operation attempt ≡ err e
          → (is_retryable e ≡ false) ⊎ (options.max_attempts ≤ attempt))
      → Settled attempt (operation attempt, [])
  unfolding IsAnnounced
  stop-Settled attempt why = record {
    last = ap operation (omega arith);
    announced = tt;
    bounded = λ h. omega (arith, h);
    given_up =
        λ e h. elim (why e h) [ inl final ↦ inl final | inr over ↦ inr (omega (arith, over)) ];
  }

  retry-Settled :
      (attempt : ℕ) (e : Thrown) (r : Retries A)
      → operation attempt ≡ err e
      → is_retryable e ≡ true
      → attempt < options.max_attempts
      → Settled (suc attempt) r
      → Settled attempt (r.0, retry_info options attempt e ∷ r.1)
  unfolding IsAnnounced
  retry-Settled attempt e r failed retryable room s = record {
    last = s.last ∙ ap operation (omega arith);
    announced = ((e, failed, retryable, refl), s.announced);
    bounded = λ h. omega (arith, s.bounded room);
    given_up = λ f h. elim (s.given_up f h) [
      | inl final ↦ inl final
      | inr over ↦ inr (omega (arith, over))
    ];
  }

  retry_from-Settled :
      (fuel attempt : ℕ)
      → options.max_attempts < fuel + attempt
      → 0 < fuel
      → (r : Retries A) × (retry_from fuel options operation attempt ≡ some r) × Settled attempt r
  unfolding retry_from
  retry_from-Settled zero attempt h pos = absurd (omega arith)
  retry_from-Settled (suc fuel) attempt h pos = elim (Outcome-cases (operation attempt)) [
    | inl (a, done) ↦ (
      (operation attempt, []),
      ground arith,
      stop-Settled attempt (λ e failed. absurd (ground arith)),
    )
    | inr (e, failed) ↦ elim (Bool-cases (is_retryable e)) [
      | inr final ↦ (
        (operation attempt, []),
        ground arith,
        stop-Settled attempt (λ f also. inl (ground arith)),
      )
      | inl again ↦ elim (Bool-cases (leb options.max_attempts attempt)) [
        | inl over ↦ (
          (operation attempt, []),
          ground arith,
          stop-Settled attempt (λ f also. inr (leb→le _ _ over)),
        )
        | inr room ↦
            let (r, run, s) =
              retry_from-Settled fuel (suc attempt) (omega (arith, h)) (ground arith) in
            (
              (r.0, retry_info options attempt e ∷ r.1),
              ground (arith, run),
              retry-Settled attempt e r failed again (ground arith) s,
            )
      ]
    ]
  ]

-- The retry loop ends with what its last call settled to. It has announced each call before that,
-- all of which failed with a retryable code; it makes at most max_attempts calls if that is
-- positive, and gives up only on another error or at the last attempt.
pub with_retry-Settled :
    {A : Type 0} (options : RetryOptions) (operation : ℕ → Outcome Thrown A)
    → (r : Retries A) × (with_retry options operation ≡ some r) × Settled options operation 1 r
unfolding with_retry
with_retry-Settled options operation =
    retry_from-Settled options operation (suc options.max_attempts) 1 (omega arith) (omega arith)
