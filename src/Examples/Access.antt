-- ===== src/Examples/Access.antt =====
-- A session: a login, a refresh, a reuse of its token, and the requests in it.
use one_marketplace.Base.{
  ℕ, ◌≡◌, refl, true, false, none, some, Option, List, [], ◌∷◌, ok, err, arith, if◌then◌else◌, All,
  inl,
}
use one_marketplace.Base.Text.{Text, codes, text_eq}
use one_marketplace.Base.Table.{first, exists, count}
use one_marketplace.Entities.{RefreshToken}
use one_marketplace.Auth.{
  Supply, AuthState, AuthenticatedUser, invalid_refresh_token, is_set, is_closed, refresh,
}
use one_marketplace.Auth.Denylist.{Denylist, unwritten, written, revoke_session}
use one_marketplace.Auth.Families.{
  Call, usable, logs_in, refreshes, run, AllNew, IsSingle, run-IsSingle,
}
use one_marketplace.Auth.Closed.{pairs, IsNotOf, pairs-IsNotOf}
use one_marketplace.Auth.Reuse.{refresh-reused}
use one_marketplace.Auth.Guarded.{Event, restores, closes, happen_all, IsSound}
use one_marketplace.Auth.Access.{auth_guard}
use one_marketplace.Auth.Passing.{revoked-unauthorized}
use one_marketplace.AuthApi.{unauthorized, post_refresh, post_logout}
use one_marketplace.AuthApi.LoggedOut.{IsOfSession, post_refresh-unauthorized}
use one_marketplace.Examples.Shop.{ann, shop}

abbrev supply : ℕ → Text → Supply
supply now token = record {
  now = now;
  fresh_token = token;
  fresh_id = now;
  fresh_family = 50;
  reply = written;
  hash_refresh = λ t. t;
  verify_password = λ password hash. text_eq password hash;
  lower_case = λ t. t;
}

abbrev pub in_sync : Denylist
in_sync = record { keys = []; synced = true; generation = 0 }

abbrev at_start : AuthState
at_start = record {
  db = record shop { users = record ann { password_hash = some (codes "pw") } ∷ [] };
  denylist = in_sync;
}

abbrev calls : List Call
calls =
    logs_in (supply 1000 (codes "a")) (codes "ann@shop") (codes "pw")
    ∷ refreshes (supply 2000 (codes "b")) (codes "a")
    ∷ refreshes (supply 3000 (codes "c")) (codes "a")
    ∷ []

start-IsSingle : IsSingle at_start
unfolding count
start-IsSingle f = omega arith

calls-AllNew : AllNew calls at_start
unfolding AllNew count
calls-AllNew = (refl, (tt, (tt, tt)))

run-IsSingle_example : IsSingle (run calls at_start)
run-IsSingle_example = run-IsSingle calls at_start calls-AllNew start-IsSingle

abbrev used_token : RefreshToken
used_token = record {
  id = 1;
  user_id = 7;
  family_id = 50;
  token_hash = codes "a";
  expires_at = 900000000;
  used_at = some 2000;
  revoked_at = none;
  created_at = 1000;
}

abbrev after_rotation : AuthState
after_rotation = record at_start { db = record shop { refresh_tokens = used_token ∷ [] } }

token-found :
    first (λ r. text_eq r.token_hash (codes "a")) after_rotation.db.refresh_tokens ≡ some used_token
unfolding first text_eq
token-found = refl

token-unrevoked : is_set used_token.revoked_at ≡ false
unfolding is_set
token-unrevoked = refl

token-used : is_set used_token.used_at ≡ true
unfolding is_set
token-used = refl

refresh-reused_example :
    ((refresh (supply 3000 (codes "c")) (codes "a") after_rotation).0 ≡ err invalid_refresh_token)
    × (usable 50 (refresh (supply 3000 (codes "c")) (codes "a") after_rotation).1.db.refresh_tokens
        ≡ 0)
    × (is_closed 50
          (refresh (supply 3000 (codes "c")) (codes "a") after_rotation).1.db.refresh_tokens
        ≡ true)
refresh-reused_example =
    refresh-reused (supply 3000 (codes "c")) (codes "a") after_rotation used_token token-found
      ((λ same. token-used), tt) token-unrevoked

abbrev closed_session : AuthState
closed_session = record at_start {
  db = record shop { refresh_tokens = record used_token { revoked_at = some 2500 } ∷ [] };
}

session-closed : is_closed 50 closed_session.db.refresh_tokens ≡ true
unfolding is_closed exists is_set
session-closed = refl

pairs-IsNotOf_example :
    All (IsNotOf 50) (pairs (refreshes (supply 3000 (codes "c")) (codes "a") ∷ []) closed_session)
pairs-IsNotOf_example =
    pairs-IsNotOf (refreshes (supply 3000 (codes "c")) (codes "a") ∷ []) closed_session 50 (tt, tt)
      session-closed

-- The write fails; a sync that read the session restores it.
abbrev events : List Event
events = closes ∷ restores written 110 (record { session_id = 50; ttl_seconds = 590 } ∷ []) 2 ∷ []

events-IsSound : All (IsSound 50 700 0) events
unfolding exists
events-IsSound = (tt, ((((λ same. omega arith), tt), inl refl), tt))

abbrev user : AuthenticatedUser
user = record { id = 7; role = ann.role; session_id = 50; token_id = 8; expires_at = 690 }

abbrev verify : Text → Option AuthenticatedUser
verify token = if text_eq token (codes "h.p.s") then some user else none

revoked-unauthorized_example : ¬ (
    auth_guard verify 400
      (happen_all events (revoke_session unwritten 100 50 in_sync).1)
      (codes "Bearer h.p.s")
    ≡ ok user)
revoked-unauthorized_example =
    revoked-unauthorized unwritten 100 400 in_sync events verify (codes "Bearer h.p.s") user tt
      events-IsSound (omega arith)

presented-IsOfSession : All (IsOfSession 50 (codes "a")) after_rotation.db.refresh_tokens
presented-IsOfSession = ((λ same. refl), tt)

post_refresh-unauthorized_example :
    (post_refresh
      (λ owner session. codes "jwt")
      (supply 3100 (codes "c"))
      (codes "a")
      (post_logout (supply 3000 (codes "c")) user after_rotation).1).0
    ≡ err unauthorized
post_refresh-unauthorized_example =
    post_refresh-unauthorized (λ owner session. codes "jwt") (supply 3000 (codes "c"))
      (supply 3100 (codes "c")) user (codes "a") after_rotation presented-IsOfSession
