-- ===== src/Examples/Upkeep.antt =====
-- Refresh tokens of two families, their cleanup and their sync.
use one_marketplace.Base.{
  ℕ, ◌+◌, ◌≡◌, ◌<◌, ◌≤◌, ◌-◌, refl, false, none, some, List, [], ◌∷◌, ok, inl, arith,
}
use one_marketplace.Base.Text.{codes, text_eq}
use one_marketplace.Base.Table.{count}
use one_marketplace.Entities.{RefreshToken}
use one_marketplace.Cleanup.Deleted.{Cleaned}
use one_marketplace.Auth.Denylist.{Denylist, mark_out_of_sync, is_denied, unconfirmed}
use one_marketplace.Auth.Maintenance.{
  Runs, is_dead, cleanup_expired_refresh_tokens, sync_revoked_sessions,
}
use one_marketplace.Auth.Expired.{cleanup_expired-Cleaned}
use one_marketplace.Auth.Synced.{sync-refused}
use one_marketplace.Auth.Runs.{Step, launches, settles, stops, IsExclusive}
use one_marketplace.Sessions.{create_session, touch}
use one_marketplace.Sessions.Kept
use one_marketplace.Sessions.Kept.{creates, touches, last_use, ttl_ms, InUse, create_session-touch}

abbrev token_of : ℕ → ℕ → ℕ → RefreshToken
token_of id family expires_at = record {
  id = id;
  user_id = 7;
  family_id = family;
  token_hash = codes "t";
  expires_at = expires_at;
  used_at = none;
  revoked_at = none;
  created_at = 0;
}

-- A family that is expired, and one that has a live token.
abbrev tokens : List RefreshToken
tokens = token_of 1 50 1000 ∷ token_of 2 51 1000 ∷ token_of 3 51 900000 ∷ []

abbrev clock : ℕ → ℕ
clock fuel = 5000 - fuel

clock-ticks : (m n : ℕ) → m ≤ n → clock n ≤ clock m
clock-ticks m n h = omega arith

cleanup_expired-Cleaned_example :
    (r : ℕ × List RefreshToken) × (last : ℕ) × (cleanup_expired_refresh_tokens 4 1 clock tokens
      ≡ some r)
    × (last < 4)
    × Cleaned (λ now. is_dead now tokens) (clock last) 0 tokens r
cleanup_expired-Cleaned_example =
    cleanup_expired-Cleaned 4 1 clock tokens clock-ticks (omega arith) (omega arith)

-- The session's write was lost when Redis lost its keys.
abbrev lost : Denylist
lost = record { keys = []; synced = false; generation = 3 }

abbrev revoked : List RefreshToken
revoked = record (token_of 4 50 900000) { revoked_at = some 100000 } ∷ tokens

sync-refused_example : ¬ (
    is_denied 400 8 50
      (sync_revoked_sessions unconfirmed 120000 121 revoked mark_out_of_sync lost).1
    ≡ ok false)
unfolding mark_out_of_sync
sync-refused_example =
    sync-refused unconfirmed 120000 121 50 100000 400 8 revoked mark_out_of_sync lost
      (inl (refl, refl)) (omega arith) (omega arith) (omega arith) tt

abbrev idle : Runs
idle = record { running = []; stopped = false; started = [] }

idle-IsExclusive : IsExclusive idle
unfolding count
idle-IsExclusive = record { once = λ name. omega arith }

abbrev before : List Step
before = launches (codes "sync") 1 ∷ launches (codes "sync") 2 ∷ settles (codes "sync") ∷ stops ∷ []

abbrev after : List Step
after = launches (codes "sync") 3 ∷ []

-- A session that is used, while another is created.
abbrev uses : List Kept.Step
uses = creates (codes "b") (codes "7") 2000 ∷ touches (codes "a") 900000 ∷ []

uses-InUse : InUse (codes "a") 1000 uses
unfolding text_eq
uses-InUse = (refl, ((λ own. omega arith), tt))

in_time : 2000000 < last_use (codes "a") 1000 uses + ttl_ms
unfolding last_use text_eq
in_time = omega arith

create_session-touch_example :
    (touch
      (codes "a")
      2000000
      (Kept.act_all uses (create_session (codes "a") (codes "7") 1000 []).1)).0
    ≡ some (create_session (codes "a") (codes "7") 1000 []).0
create_session-touch_example =
    create_session-touch (codes "a") (codes "7") 1000 2000000 uses [] uses-InUse in_time
