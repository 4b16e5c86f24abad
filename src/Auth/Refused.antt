-- ===== src/Auth/Refused.antt =====
-- That a revoked session stays refused (auth/access-denylist.ts), whatever happens to Redis.
use one_marketplace.Base.{
  ℕ, ◌+◌, ◌<◌, ◌≡◌, refl, true, false, inl, inr, List, [], ◌∷◌, ok, arith, All,
}
use one_marketplace.Base.Table.{exists}
use one_marketplace.Auth.Denylist.{
  access_token_ttl_seconds, revoked_session, Entry, Denylist, Reply, written, unwritten,
  unconfirmed, set_key, has_key, mark_out_of_sync, write, revoke_session, is_denied,
}
use one_marketplace.Auth.Sessions.{Lasts, is_present, set_key-Lasts, present_own}
use one_marketplace.Auth.Guarded.{Event, happen_all, IsGuarded, IsSound, happen_all-IsGuarded}

module _ (session limit start : ℕ) where
  has_key-present :
      (later : ℕ) (keys : List Entry)
      → later < limit
      → All (Lasts session limit) keys
      → is_present session keys ≡ true
      → has_key later (revoked_session session) keys ≡ true
  unfolding has_key exists
  has_key-present later [] h a p = absurd (ground arith)
  has_key-present later (e ∷ keys) h a p = ground (arith, h, a.0, has_key-present later keys h a.1)

  pub guarded-refused :
      (later token : ℕ) (d : Denylist)
      → later < limit
      → IsGuarded session limit start d
      → ¬ (is_denied later token session d ≡ ok false)
  unfolding is_denied
  guarded-refused later token d h g e = elim g.guarded [
    | inr lost ↦ absurd (ground (arith, lost, e))
    | inl p ↦ absurd (ground (arith, has_key-present later d.keys h g.lasts p, e))
  ]

revoked-Lasts :
    (now session : ℕ) (d : Denylist)
    → All (Lasts session (now + access_token_ttl_seconds)) d.keys
    → All
        (Lasts session (now + access_token_ttl_seconds))
        (set_key (revoked_session session) (now + access_token_ttl_seconds) d.keys)
revoked-Lasts now session d a =
    let limit = now + access_token_ttl_seconds in
    set_key-Lasts session (revoked_session session) limit limit d.keys (λ same. omega arith) a

-- The first write of a revocation, whatever its reply.
revoke-IsGuarded :
    (reply : Reply) (now session : ℕ) (d : Denylist)
    → All (Lasts session (now + access_token_ttl_seconds)) d.keys
    → IsGuarded session
        (now + access_token_ttl_seconds)
        d.generation
        (revoke_session reply now session d).1
unfolding revoke_session write mark_out_of_sync
revoke-IsGuarded written now session d a = record {
  lasts = revoked-Lasts now session d a;
  reached = omega arith;
  guarded = inl (present_own session (now + access_token_ttl_seconds) d.keys);
}
revoke-IsGuarded unwritten now session d a = record {
  lasts = a;
  reached = omega arith;
  guarded = inr (refl, omega arith);
}
revoke-IsGuarded unconfirmed now session d a = record {
  lasts = revoked-Lasts now session d a;
  reached = omega arith;
  guarded = inr (refl, omega arith);
}

-- If every key of a session in the denylist outlives its revocation's, then from the revocation
-- on, until every access token of before has expired, no question about the session is answered
-- with not denied, however the writes to Redis end, its connection closes or its keys are lost,
-- as long as the times go on and each sync either read the session among the revoked ones or
-- began before the revocation.
pub revoked-refused :
    (reply : Reply) (now session token later : ℕ) (d : Denylist) (events : List Event)
    → All (Lasts session (now + access_token_ttl_seconds)) d.keys
    → All (IsSound session (now + access_token_ttl_seconds) d.generation) events
    → later < now + access_token_ttl_seconds
    → ¬ (
        is_denied later token session (happen_all events (revoke_session reply now session d).1)
        ≡ ok false)
revoked-refused reply now session token later d events a sound h =
    let limit = now + access_token_ttl_seconds in
    guarded-refused session limit d.generation later token _ h (
      happen_all-IsGuarded session limit d.generation events _ sound
        (revoke-IsGuarded reply now session d a))
