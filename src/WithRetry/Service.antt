-- ===== src/WithRetry/Service.antt =====
-- services/with-retry.ts: which errors are retried, and the loop.
use one_marketplace.Base.{
  ℕ, zero, suc, ◌+◌, ◌-◌, ◌*◌, ◌^◌, Bool, false, not, ◌||◌, Option, none, some, List, [], ◌∷◌,
  Outcome, ok, err, leb, if◌then◌else◌,
}
use one_marketplace.Base.Text.{Text, codes, text_eq}

-- A field of an error: not there (`undefined` or `null`), a string, or something else.
pub data Code : Type 0 where
  absent : Code
  string : Text → Code
  other : Code

-- What is thrown: an object with its `code` and the `code` of its `driverError`, or no object.
pub data Thrown : Type 0 where
  object : Code → Code → Thrown
  primitive : Thrown

-- candidate.code ?? candidate.driverError?.code
unfoldable pub coalesce : Code → Code → Code
coalesce absent driver = driver
coalesce (string s) driver = string s
coalesce other driver = other

unfoldable pub string_code : Code → Option Text
string_code (string s) = some s
string_code _ = none

unfoldable pub get_error_code : Thrown → Option Text
get_error_code (object code driver) = string_code (coalesce code driver)
get_error_code primitive = none

-- RETRYABLE_CODES.has(code); the empty string, which `!code` refuses, is none of them.
unfoldable pub is_retryable_code : Option Text → Bool
is_retryable_code none = false
is_retryable_code (some code) = text_eq code (codes "40001") || text_eq code (codes "40P01")

unfoldable pub is_retryable : Thrown → Bool
is_retryable e = is_retryable_code (get_error_code e)

pub record RetryInfo : Type 0 where
  pub attempt : ℕ
  pub error : Thrown
  pub delay_ms : ℕ

-- The options, and the random part of each delay.
pub record RetryOptions : Type 0 where
  pub max_attempts : ℕ
  pub base_delay_ms : ℕ
  pub jitter : ℕ → ℕ

abbrev pub retry_info : RetryOptions → ℕ → Thrown → RetryInfo
retry_info options attempt e = record {
  attempt = attempt;
  error = e;
  delay_ms = options.base_delay_ms * 2 ^ (attempt - 1) + options.jitter attempt;
}

-- What a call settles to, and the retries that it announced.
abbrev pub Retries : Type 0 → Type 0
Retries A = Outcome Thrown A × List RetryInfo

-- The loop, at an attempt; `none` means that the fuel ran out. `operation` is what each attempt's
-- call settles to.
unfoldable pub retry_from :
    {A : Type 0} → ℕ → RetryOptions → (ℕ → Outcome Thrown A) → ℕ → Option (Retries A)
retry_from zero options operation attempt = none
retry_from (suc fuel) options operation attempt =
    let rest = retry_from fuel options operation (suc attempt) in
    elim (operation attempt) [
      | ok a ↦ some (ok a, [])
      | err e ↦
          if not (is_retryable e) || leb options.max_attempts attempt
          then some (err e, [])
          else elim rest [
            | none ↦ none
            | some (result, infos) ↦ some (result, retry_info options attempt e ∷ infos)
          ]
    ]

unfoldable pub with_retry :
    {A : Type 0} → RetryOptions → (ℕ → Outcome Thrown A) → Option (Retries A)
with_retry options operation = retry_from (suc options.max_attempts) options operation 1
