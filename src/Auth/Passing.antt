-- ===== src/Auth/Passing.antt =====
-- Which requests the guards (auth/auth.guard.ts, auth/roles.guard.ts) let through.
use one_marketplace.Base.{
  ℕ, ◌+◌, ◌<◌, ◌≡◌, subst, Bool, true, false, Option, some, inl, inr, List, Outcome, ok, err, arith,
  All, Option-cases,
}
use one_marketplace.Base.Text.{Text}
use one_marketplace.Auth.Denylist.{
  access_token_ttl_seconds, Denylist, Reply, revoke_session, is_denied,
}
use one_marketplace.Auth.Service.{AuthenticatedUser}
use one_marketplace.Auth.Sessions.{Lasts}
use one_marketplace.Auth.Guarded.{Event, happen_all, IsSound}
use one_marketplace.Auth.Refused.{revoked-refused}
use one_marketplace.Auth.Access.{
  AccessFailure, rejected, unavailable, not_denied, authenticate, bearer_token, guarded_user,
  auth_guard,
}

-- A request that passed: its bearer token is the user's, and the denylist, in sync, did not have it.
pub record Passed (verify : Text → Option AuthenticatedUser) (now : ℕ) (d : Denylist)
    (header : Text) (user : AuthenticatedUser) : Type 0 where
  pub token : Text
  pub bearer : bearer_token header ≡ some token
  pub verified : verify token ≡ some user
  pub allowed : is_denied now user.token_id user.session_id d ≡ ok false

guarded_user-ok :
    (o : Outcome AccessFailure AuthenticatedUser) (user : AuthenticatedUser)
    → guarded_user o ≡ ok user
    → o ≡ ok user
unfolding guarded_user
guarded_user-ok (ok u) user h = ground arith
guarded_user-ok (err rejected) user h = absurd (ground arith)
guarded_user-ok (err unavailable) user h = absurd (ground arith)

not_denied-ok :
    (u user : AuthenticatedUser) (o : Outcome (Unit {0}) Bool)
    → not_denied u o ≡ ok user
    → (u ≡ user) × (o ≡ ok false)
unfolding not_denied
not_denied-ok u user (err e) h = absurd (ground arith)
not_denied-ok u user (ok true) h = absurd (ground arith)
not_denied-ok u user (ok false) h = ground arith

-- A request passes the guard only with a bearer token that verifies as the user's, while the denylist
-- is in sync and has neither the token nor its session.
auth_guard-Passed :
    (verify : Text → Option AuthenticatedUser) (now : ℕ) (d : Denylist) (header : Text)
    (user : AuthenticatedUser)
    → auth_guard verify now d header ≡ ok user
    → Passed verify now d header user
unfolding auth_guard authenticate
auth_guard-Passed verify now d header user h = elim (Option-cases (bearer_token header)) [
  | inl e ↦ absurd (ground arith)
  | inr (token, e) ↦
      let through = guarded_user-ok _ user (rw (e, auth_guard) at h) in
      elim (Option-cases (verify token)) [
        | inl f ↦ absurd (ground arith)
        | inr (u, f) ↦
            let (same, allowed) = not_denied-ok u user _ (rw (f, authenticate) at through) in
            record {
              token = token;
              bearer = e;
              verified = subst (λ v. verify token ≡ some v) same f;
              allowed =
                  subst
                    (λ (v : AuthenticatedUser). is_denied now v.token_id v.session_id d ≡ ok false)
                    same allowed;
            }
      ]
]

-- If every key of a session in the denylist outlives its revocation's, no request with a token of
-- the revoked session passes the guard until every access token of before the revocation has
-- expired, however the writes to Redis end, its connection closes or its keys are lost, as long
-- as the times go on and each sync either read the session among the revoked ones or began before
-- the revocation.
pub revoked-unauthorized :
    (reply : Reply) (now later : ℕ) (d : Denylist) (events : List Event)
    (verify : Text → Option AuthenticatedUser) (header : Text) (user : AuthenticatedUser)
    → All (Lasts user.session_id (now + access_token_ttl_seconds)) d.keys
    → All (IsSound user.session_id (now + access_token_ttl_seconds) d.generation) events
    → later < now + access_token_ttl_seconds
    → ¬ (
        auth_guard verify later
          (happen_all events (revoke_session reply now user.session_id d).1)
          header
        ≡ ok user)
revoked-unauthorized reply now later d events verify header user a sound h passes =
    revoked-refused reply now user.session_id user.token_id later d events a sound h
      (auth_guard-Passed verify later _ header user passes).allowed
