-- ===== src/Auth/Maintenance.antt =====
-- auth/auth-maintenance.ts: the sync of the revoked sessions, the cleanup of expired refresh tokens,
-- and the runs by name. A time of the database is in milliseconds, one of the denylist in seconds.
use one_marketplace.Base.{
  ℕ, zero, suc, ◌+◌, ◌*◌, ◌-◌, ◌/◌, Bool, true, false, not, ◌&&◌, Option, none, some, List, [], ◌∷◌,
  ◌++◌, Outcome, ltb, leb, ◌==◌, if◌then◌else◌,
}
use one_marketplace.Base.Text.{Text, text_eq}
use one_marketplace.Base.Table.{select, exists}
use one_marketplace.Entities.{RefreshToken}
use one_marketplace.Cleanup.{delete_some}
use one_marketplace.Auth.Denylist.{
  access_token_ttl_seconds, Denylist, RevokedSession, Reply, restore,
}

abbrev pub window_ms : ℕ
window_ms = access_token_ttl_seconds * 1000

-- revoked_at > now() - make_interval(secs => $1)
unfoldable pub is_recently_revoked : ℕ → Option ℕ → Bool
is_recently_revoked now none = false
is_recently_revoked now (some at) = ltb now (at + window_ms)

-- max(revoked_at) of a family's recent rows; 0 where it has none.
unfoldable pub last_revoked : ℕ → ℕ → List RefreshToken → ℕ
last_revoked now family [] = 0
last_revoked now family (row ∷ rows) =
    let rest = last_revoked now family rows in
    let at : ℕ = elim row.revoked_at [ none ↦ 0 | some t ↦ t ] in
    if row.family_id == family && is_recently_revoked now row.revoked_at && ltb rest at
    then at
    else rest

-- ceil(extract(epoch FROM ...))::int
unfoldable pub ttl_seconds_of : ℕ → ℕ → ℕ
ttl_seconds_of now revoked_at = (revoked_at + window_ms - now + 999) / 1000

-- GROUP BY family_id: the group of a row stands where its last row does.
unfoldable pub groups : ℕ → List RefreshToken → List RefreshToken → List RevokedSession
groups now all [] = []
groups now all (row ∷ rows) =
    let rest = groups now all rows in
    if is_recently_revoked now row.revoked_at
      && not (
          exists
            (λ (r : RefreshToken).
              r.family_id == row.family_id && is_recently_revoked now r.revoked_at)
            rows)
    then record {
      session_id = row.family_id;
      ttl_seconds = ttl_seconds_of now (last_revoked now row.family_id all);
    }
      ∷ rest
    else rest

unfoldable pub find_recently_revoked_sessions : ℕ → List RefreshToken → List RevokedSession
find_recently_revoked_sessions now tokens = groups now tokens tokens

-- syncRevokedSessions: `meanwhile` is what happens to the denylist while the query runs, at
-- `query_ms`; the write is at `now`.
unfoldable pub sync_revoked_sessions :
    Reply
    → ℕ
    → ℕ
    → List RefreshToken
    → (Denylist → Denylist)
    → Denylist
    → Outcome (Unit {0}) (Unit {0}) × Denylist
sync_revoked_sessions reply query_ms now tokens meanwhile d =
    let since = d.generation in
    restore reply now (find_recently_revoked_sessions query_ms tokens) since (meanwhile d)

abbrev pub refresh_tokens_cleanup_batch : ℕ
refresh_tokens_cleanup_batch = 1000

-- EXISTS (SELECT 1 FROM refresh_tokens live ...)
unfoldable pub has_live : ℕ → ℕ → List RefreshToken → Bool
has_live now family tokens =
    exists (λ (live : RefreshToken). live.family_id == family && leb now live.expires_at) tokens

-- The condition of the DELETE on a row of the table `tokens`.
unfoldable pub is_dead : ℕ → List RefreshToken → RefreshToken → Bool
is_dead now tokens row = ltb row.expires_at now && not (has_live now row.family_id tokens)

-- The loop of cleanupExpiredRefreshTokens: `clock` is the time of the batch at which so much fuel is
-- left; `none` means that the fuel ran out.
unfoldable pub expired_from :
    ℕ → ℕ → (ℕ → ℕ) → ℕ → List RefreshToken → Option (ℕ × List RefreshToken)
expired_from zero batch clock deleted tokens = none
expired_from (suc fuel) batch clock deleted tokens =
    let (affected, left) = delete_some batch (is_dead (clock fuel) tokens) tokens in
    let more = expired_from fuel batch clock (deleted + affected) left in
    if ltb affected batch then some (deleted + affected, left) else more

unfoldable pub cleanup_expired_refresh_tokens :
    ℕ → ℕ → (ℕ → ℕ) → List RefreshToken → Option (ℕ × List RefreshToken)
cleanup_expired_refresh_tokens fuel batch clock tokens = expired_from fuel batch clock 0 tokens

-- The fields of the class: the names that run, each with the number of its run, and the runs ever
-- started.
pub record Runs : Type 0 where
  pub running : List (Text × ℕ)
  pub stopped : Bool
  pub started : List (Text × ℕ)

unfoldable pub current_run : Text → List (Text × ℕ) → Option ℕ
current_run name [] = none
current_run name ((other, run) ∷ rest) =
    let found = current_run name rest in if text_eq other name then some run else found

-- launch: the run that the caller may wait for; `next` numbers a new one.
unfoldable pub launched : Text → ℕ → Runs → Option ℕ → Option ℕ × Runs
launched name next runs (some run) = (some run, runs)
launched name next runs none = if runs.stopped then (none, runs) else (
  some next,
  record runs {
    running = runs.running ++ (name, next) ∷ [];
    started = runs.started ++ (name, next) ∷ [];
  },
)

unfoldable pub launch : Text → ℕ → Runs → Option ℕ × Runs
launch name next runs = launched name next runs (current_run name runs.running)

-- .finally(() => this.running.delete(name)), whether the task failed or not
unfoldable pub finish_run : Text → Runs → Runs
finish_run name runs = record runs {
  running = select (λ (r : Text × ℕ). not (text_eq r.0 name)) runs.running;
}

-- onModuleDestroy, before it waits for the runs
unfoldable pub stop : Runs → Runs
stop runs = record runs { stopped = true }
