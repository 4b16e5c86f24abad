-- ===== src/Auth/Denylist.antt =====
-- auth/access-denylist.ts, and the questions that auth/access-authenticator.ts asks of it.
use one_marketplace.Base.{
  ℕ, ◌+◌, ◌-◌, Bool, true, false, not, ◌&&◌, ◌||◌, List, [], ◌∷◌, Outcome, ok, err, ltb, ◌==◌,
  if◌then◌else◌,
}
use one_marketplace.Base.Table.{select, exists}

abbrev pub access_token_ttl_seconds : ℕ
access_token_ttl_seconds = 600

-- deniedTokenKey and revokedSessionKey
pub data Key : Type 0 where
  denied_token revoked_session : ℕ → Key

pub record Entry : Type 0 where
  pub key : Key
  pub expires_at : ℕ

-- Redis's keys; `synced` and `generation` are the fields of the class. Times are in seconds.
pub record Denylist : Type 0 where
  pub keys : List Entry
  pub synced : Bool
  pub generation : ℕ

pub record RevokedSession : Type 0 where
  pub session_id : ℕ
  pub ttl_seconds : ℕ

-- A command to Redis: it is done, it is not done, or it is done and its reply is lost.
pub data Reply : Type 0 where
  written unwritten unconfirmed : Reply

unfoldable pub same_key : Key → Key → Bool
same_key (denied_token a) (denied_token b) = a == b
same_key (revoked_session a) (revoked_session b) = a == b
same_key _ _ = false

-- SET key '1' EX ttl
unfoldable pub set_key : Key → ℕ → List Entry → List Entry
set_key key expires_at keys =
    record { key = key; expires_at = expires_at } ∷ select (λ e. not (same_key e.key key)) keys

-- EXISTS key
unfoldable pub has_key : ℕ → Key → List Entry → Bool
has_key now key keys = exists (λ (e : Entry). same_key e.key key && ltb now e.expires_at) keys

unfoldable pub mark_out_of_sync : Denylist → Denylist
mark_out_of_sync d = record d { synced = false; generation = d.generation + 1 }

-- The private `write`: a failure marks the list as out of sync, and is thrown.
unfoldable pub write : Reply → List Entry → Denylist → Outcome (Unit {0}) (Unit {0}) × Denylist
write written keys d = (ok tt, record d { keys = keys })
write unwritten keys d = (err tt, mark_out_of_sync d)
write unconfirmed keys d = (err tt, mark_out_of_sync (record d { keys = keys }))

unfoldable pub revoke_session : Reply → ℕ → ℕ → Denylist → Outcome (Unit {0}) (Unit {0}) × Denylist
revoke_session reply now session_id d =
    write reply (set_key (revoked_session session_id) (now + access_token_ttl_seconds) d.keys) d

unfoldable pub deny : Reply → ℕ → ℕ → ℕ → ℕ → Denylist → Outcome (Unit {0}) (Unit {0}) × Denylist
deny reply now token_id expires_at session_id d =
    let keys = set_key (revoked_session session_id) (now + access_token_ttl_seconds) d.keys in
    write reply
      (if ltb 0 (expires_at - now) then set_key (denied_token token_id) expires_at keys else keys) d

-- SET key '1' EX ttl NX
unfoldable pub set_new : ℕ → Key → ℕ → List Entry → List Entry
set_new now key expires_at keys = if has_key now key keys then keys else set_key key expires_at keys

unfoldable pub set_sessions : ℕ → List RevokedSession → List Entry → List Entry
set_sessions now [] keys = keys
set_sessions now (s ∷ sessions) keys =
    set_sessions now sessions
      (set_new now (revoked_session s.session_id) (now + s.ttl_seconds) keys)

unfoldable pub finish_sync : ℕ → Denylist → Denylist
finish_sync since d = if d.generation == since then record d { synced = true } else d

-- restoreRevokedSessions; its pipeline is done or not as a whole.
unfoldable pub restore :
    Reply → ℕ → List RevokedSession → ℕ → Denylist → Outcome (Unit {0}) (Unit {0}) × Denylist
restore reply now [] since d = (ok tt, finish_sync since d)
restore reply now (s ∷ sessions) since d =
    let (result, after) = write reply (set_sessions now (s ∷ sessions) d.keys) d in
    elim result [ err e ↦ (err tt, after) | ok u ↦ (ok tt, finish_sync since after) ]

-- isDenied: out of sync, it throws.
unfoldable pub is_denied : ℕ → ℕ → ℕ → Denylist → Outcome (Unit {0}) Bool
is_denied now token_id session_id d =
    if d.synced
    then ok (
        has_key now (denied_token token_id) d.keys
        || has_key now (revoked_session session_id) d.keys)
    else err tt
