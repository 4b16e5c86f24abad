-- ===== src/Auth/Allowed.antt =====
-- What isStillValid of auth/access-authenticator.ts answers, by the keys of the denylist.
use one_marketplace.Base.{
  ℕ, ◌<◌, ◌≡◌, refl, subst, ap, true, false, inl, inr, List, [], ◌∷◌, ltb, arith, ==_refl, ==_iff,
  All, Bool-cases,
}
use one_marketplace.Base.Table.{exists}
use one_marketplace.Auth.Denylist.{
  Denylist, Key, denied_token, revoked_session, Entry, same_key, has_key, is_denied,
}
use one_marketplace.Auth.Service.{AuthenticatedUser}
use one_marketplace.Auth.Access.{none_denied, is_still_valid}

-- A key that the denylist has, and that has not expired.
abbrev IsLive : ℕ → Key → Entry → Type 0
IsLive now key entry = (entry.key ≡ key) × (now < entry.expires_at)

-- A user whose token has not expired, while the denylist is in sync and has neither the token nor its
-- session.
pub record IsAllowed (now : ℕ) (d : Denylist) (user : AuthenticatedUser) : Type 0 where
  pub unexpired : now < user.expires_at
  pub synced : d.synced ≡ true
  pub token : All (λ (k : Entry). ¬ IsLive now (denied_token user.token_id) k) d.keys
  pub session : All (λ (k : Entry). ¬ IsLive now (revoked_session user.session_id) k) d.keys

same_key_refl : (a : Key) → same_key a a ≡ true
unfolding same_key
same_key_refl (denied_token n) = ==_refl n
same_key_refl (revoked_session n) = ==_refl n

same_key_sound : (a b : Key) → same_key a b ≡ true → a ≡ b
unfolding same_key
same_key_sound (denied_token a) (denied_token b) h = ap denied_token ((==_iff a b).0 h)
same_key_sound (revoked_session a) (revoked_session b) h = ap revoked_session ((==_iff a b).0 h)
same_key_sound (denied_token a) (revoked_session b) h = absurd (ground arith)
same_key_sound (revoked_session a) (denied_token b) h = absurd (ground arith)

has_key-IsLive :
    (now : ℕ) (key : Key) (keys : List Entry)
    → has_key now key keys ≡ false
    → All (λ k. ¬ IsLive now key k) keys
unfolding has_key exists
has_key-IsLive now key [] h = tt
has_key-IsLive now key (k ∷ keys) h = (
  λ live.
      let same : same_key k.key key ≡ true =
        subst (λ x. same_key k.key x ≡ true) live.0 (same_key_refl k.key) in
      ground (arith, h, same, live.1),
  has_key-IsLive now key keys (ground (arith, h)),
)

IsLive-has_key :
    (now : ℕ) (key : Key) (keys : List Entry)
    → All (λ k. ¬ IsLive now key k) keys
    → has_key now key keys ≡ false
unfolding has_key exists
IsLive-has_key now key [] h = refl
IsLive-has_key now key (k ∷ keys) h =
    let rest = IsLive-has_key now key keys h.1 in
    elim (Bool-cases (same_key k.key key)) [
      | inr other ↦ ground (arith, other, rest)
      | inl same ↦ elim (Bool-cases (ltb now k.expires_at)) [
        | inl early ↦ absurd (h.0 (same_key_sound k.key key same, ground (arith, early)))
        | inr late ↦ ground (arith, late, rest)
      ]
    ]

pub is_still_valid-IsAllowed :
    (now : ℕ) (d : Denylist) (user : AuthenticatedUser)
    → is_still_valid now d user ≡ true
    → IsAllowed now d user
unfolding is_still_valid none_denied is_denied
is_still_valid-IsAllowed now d user h = elim (Bool-cases d.synced) [
  | inr out ↦ absurd (ground (arith, h, out))
  | inl synced ↦ record {
    unexpired = ground (arith, h, synced);
    synced = synced;
    token = has_key-IsLive now (denied_token user.token_id) d.keys (ground (arith, h, synced));
    session =
        has_key-IsLive now (revoked_session user.session_id) d.keys (ground (arith, h, synced));
  }
]

pub IsAllowed-is_still_valid :
    (now : ℕ) (d : Denylist) (user : AuthenticatedUser)
    → IsAllowed now d user
    → is_still_valid now d user ≡ true
unfolding is_still_valid none_denied is_denied
IsAllowed-is_still_valid now d user a = ground (
  arith,
  a.unexpired,
  a.synced,
  IsLive-has_key now (denied_token user.token_id) d.keys a.token,
  IsLive-has_key now (revoked_session user.session_id) d.keys a.session,
)
