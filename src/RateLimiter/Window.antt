-- ===== src/RateLimiter/Window.antt =====
-- That no window of `rate_limit_window_ms` sees more than `rate_limit` requests of a client pass.
use one_marketplace.Base.{
  ℕ, ◌+◌, ◌≤◌, ◌<◌, ◌≡◌, refl, sym, ◌∙◌, Bool, false, ◌&&◌, inl, inr, List, [], ◌∷◌, length, ltb,
  leb, if◌then◌else◌, arith, All, All-imp, Bool-cases, leb→le,
}
use one_marketplace.Base.Table.{select, count, length-select}
use one_marketplace.RateLimiter.Service.{
  rate_limit, rate_limit_window_ms, no_hits, SortedSet, visible, is_recent, add_score,
  sliding_window, Redis, answers, unreachable, unanswered, hit,
}

-- A request that passed at `score` lies in the window that ends at `t`.
unfoldable pub is_within : ℕ → ℕ → Bool
is_within t score = leb score t && ltb t (score + rate_limit_window_ms)

-- The requests that passed so far, the latest first, against the set, from the time `now` on.
pub record IsCovered (now : ℕ) (passed : List ℕ) (set : SortedSet) : Type 0 where
  pub past : All (λ score. score ≤ now) passed
  pub covered : (t : ℕ) → now ≤ t → count (is_recent t) passed ≤ count (is_recent t) (visible t set)
  pub limited : (t : ℕ) → count (is_within t) passed ≤ rate_limit

count-add_score :
    (p : ℕ → Bool) (score : ℕ) (xs : List ℕ) → count p (add_score score xs) ≡ count p (score ∷ xs)
unfolding count add_score
count-add_score p score [] = refl
count-add_score p score (x ∷ xs) = ground (arith, count-add_score p score xs)

count_later :
    (now t : ℕ) (xs : List ℕ)
    → now ≤ t
    → count (is_recent t) (select (is_recent now) xs) ≡ count (is_recent t) xs
unfolding count select is_recent
count_later now t [] h = refl
count_later now t (x ∷ xs) h = ground (arith, count_later now t xs h)

count_within_recent :
    (now t : ℕ) (xs : List ℕ) → now ≤ t → count (is_within t) xs ≤ count (is_recent now) xs
unfolding count is_within is_recent
count_within_recent now t [] h = omega arith
count_within_recent now t (x ∷ xs) h = ground (arith, count_within_recent now t xs h)

count_dead :
    (now t : ℕ) (xs : List ℕ)
    → All (λ score. score ≤ now) xs
    → now + rate_limit_window_ms ≤ t
    → count (is_recent t) xs ≡ 0
unfolding count is_recent
count_dead now t [] a h = refl
count_dead now t (x ∷ xs) a h = ground (arith, count_dead now t xs a.1 h)

-- What the script keeps still covers the past.
kept_covers :
    (now t : ℕ) (set : SortedSet)
    → now ≤ t
    → count (is_recent t) (visible t set)
      ≤ count (is_recent t) (select (is_recent now) (visible now set))
unfolding visible count
kept_covers now t set h = rw (count_later now t (visible now set) h) (ground arith)

is_within_early : (t score : ℕ) → leb score t ≡ false → is_within t score ≡ false
unfolding is_within
is_within_early t score h = rw h refl

module _ (before now : ℕ) (passed : List ℕ) (set : SortedSet) where
  abbrev kept : List ℕ
  kept = select (is_recent now) (visible now set)

  abbrev refusing : SortedSet
  refusing = record { scores = kept; expires_at = set.expires_at }

  abbrev allowing : SortedSet
  allowing = record { scores = add_score now kept; expires_at = now + rate_limit_window_ms }

  module _ (later : before ≤ now) (c : IsCovered before passed set) where
    kept_counts : (t : ℕ) → now ≤ t → count (is_recent t) passed ≤ count (is_recent t) kept
    kept_counts t h = omega (arith, c.covered t (omega (arith, later, h)), kept_covers now t set h)

    past_now : All (λ score. score ≤ now) passed
    past_now = All-imp (λ score h. omega (arith, h, later)) passed c.past

    refusing_covers :
        (t : ℕ) → now ≤ t → count (is_recent t) passed ≤ count (is_recent t) (visible t refusing)
    unfolding visible count
    refusing_covers t h = elim (Bool-cases (ltb t set.expires_at)) [
      | inl live ↦ rw live (kept_counts t h)
      | inr dead ↦ ground (arith, c.covered t (omega (arith, later, h)))
    ]

    refusing-IsCovered : IsCovered now passed refusing
    refusing-IsCovered = record { past = past_now; covered = refusing_covers; limited = c.limited }

    allowing_covers :
        (t : ℕ)
        → now ≤ t
        → count (is_recent t) (now ∷ passed) ≤ count (is_recent t) (visible t allowing)
    unfolding visible count is_recent
    allowing_covers t h = elim (Bool-cases (ltb t (now + rate_limit_window_ms))) [
      | inl live ↦
          rw (live, count-add_score (is_recent t) now kept) (ground (arith, kept_counts t h))
      | inr dead ↦ rw dead (ground (arith, count_dead now t passed past_now))
    ]

    limited_now :
        length kept < rate_limit → (t : ℕ) → count (is_within t) (now ∷ passed) ≤ rate_limit
    unfolding count
    limited_now room t = elim (Bool-cases (leb now t)) [
      | inl h ↦
          let recent = count_within_recent now t passed (leb→le now t h) in
          let few = kept_counts now (omega arith) in
          let kept_all =
            count_later now now (visible now set) (omega arith)
            ∙ sym (length-select (is_recent now) (visible now set)) in
          ground (arith, recent, few, kept_all, room)
      | inr h ↦ ground (arith, c.limited t, is_within_early t now h)
    ]

    allowing-IsCovered : length kept < rate_limit → IsCovered now (now ∷ passed) allowing
    unfolding count
    allowing-IsCovered room = record {
      past = (omega arith, past_now);
      covered = allowing_covers;
      limited = limited_now room;
    }

-- The requests that passed, after a hit.
abbrev pub passed_after : Bool → ℕ → List ℕ → List ℕ
passed_after allowed now passed = if allowed then now ∷ passed else passed

-- A set that covers what passed also covers it with a score more.
skipping-IsCovered :
    (now : ℕ) (passed : List ℕ) (set : SortedSet)
    → IsCovered now (now ∷ passed) set
    → IsCovered now passed set
unfolding count is_recent is_within
skipping-IsCovered now passed set c = record {
  past = c.past.1;
  covered = λ t h. ground (arith, c.covered t h);
  limited = λ t. ground (arith, c.limited t);
}

hit-IsCovered :
    (redis : Redis) (before now : ℕ) (passed : List ℕ) (set : SortedSet)
    → before ≤ now
    → IsCovered before passed set
    → IsCovered now (passed_after (hit redis now set).0.allowed now passed) (hit redis now set).1
unfolding hit sliding_window
hit-IsCovered answers before now passed set h c =
    elim (Bool-cases (ltb (length (kept before now passed set)) rate_limit)) [
      | inl room ↦ rw room (allowing-IsCovered before now passed set h c (ground arith))
      | inr full ↦ rw full (refusing-IsCovered before now passed set h c)
    ]
hit-IsCovered unreachable before now passed set h c = record {
  past = past_now before now passed set h c;
  covered = λ t k. c.covered t (omega (arith, h, k));
  limited = c.limited;
}
hit-IsCovered unanswered before now passed set h c =
    elim (Bool-cases (ltb (length (kept before now passed set)) rate_limit)) [
      | inl room ↦ rw room (
          skipping-IsCovered now passed _
            (allowing-IsCovered before now passed set h c (ground arith)))
      | inr full ↦ rw full (refusing-IsCovered before now passed set h c)
    ]

-- The requests of a client: each with Redis's state and its time.
pub hits : List (Redis × ℕ) → List ℕ → SortedSet → List ℕ × SortedSet
hits [] passed set = (passed, set)
hits ((redis, now) ∷ rest) passed set =
    let (result, after) = hit redis now set in
    hits rest (passed_after result.allowed now passed) after

-- The times do not decrease.
abbrev pub IsAscending : ℕ → List (Redis × ℕ) → Type 0
IsAscending before [] = Unit
IsAscending before ((redis, now) ∷ rest) = (before ≤ now) × IsAscending now rest

hits-IsCovered :
    (before : ℕ) (requests : List (Redis × ℕ)) (passed : List ℕ) (set : SortedSet)
    → IsAscending before requests
    → IsCovered before passed set
    → (t : ℕ) → count (is_within t) (hits requests passed set).0 ≤ rate_limit
unfolding hits
hits-IsCovered before [] passed set a c = c.limited
hits-IsCovered before ((redis, now) ∷ rest) passed set a c =
    hits-IsCovered now rest _ _ a.1 (hit-IsCovered redis before now passed set a.0 c)

-- Over any requests of a client in the order of their times, whether Redis answers or not, at
-- most rate_limit of those that lie in one window are allowed.
pub hits-le-rate_limit :
    (requests : List (Redis × ℕ)) (t : ℕ)
    → IsAscending 0 requests
    → count (is_within t) (hits requests [] no_hits).0 ≤ rate_limit
unfolding count
hits-le-rate_limit requests t a =
    hits-IsCovered 0 requests [] no_hits a
      (record { past = tt; covered = λ u h. ground arith; limited = λ u. omega arith }) t
