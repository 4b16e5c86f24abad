-- ===== src/Auth/Closed.antt =====
-- Families of refresh tokens after a reuse or a logout (auth/auth.service.ts).
use one_marketplace.Base.{
  ℕ, ◌≡◌, refl, subst, ◌∙◌, Bool, true, false, not, ◌&&◌, ◌||◌, Option, none, some, inl, inr, List,
  [], ◌∷◌, ◌++◌, ok, arith, ◌==◌, All, Bool-cases, Option-cases, Outcome-cases,
}
use one_marketplace.Base.Text.{Text, text_eq}
use one_marketplace.Base.Table.{first, exists, update, exists-append, first-satisfies}
use one_marketplace.Entities.{User, RefreshToken}
use one_marketplace.Auth.Service.{
  Supply, TokenPair, AuthState, is_set, is_closed, is_rotatable, mark_used, revoke_family,
  rotate_row, refuse_row, rotate, conclude, refresh, login, logout, accepted,
}
use one_marketplace.Auth.Denylist.{Denylist}
use one_marketplace.Auth.Families.{
  Call, logs_in, refreshes, logs_out, issued, step, rotatable-is_fresh,
}

abbrev closing : ℕ → RefreshToken → Bool
closing f r = r.family_id == f && is_set r.revoked_at

closed-mark_used :
    (p : RefreshToken → Bool) (f now : ℕ) (tokens : List RefreshToken)
    → exists (closing f) (update p (mark_used now) tokens) ≡ exists (closing f) tokens
unfolding exists update
closed-mark_used p f now [] = refl
closed-mark_used p f now (r ∷ tokens) = ground (arith, closed-mark_used p f now tokens)

closed-revoke_family :
    (now family f : ℕ) (tokens : List RefreshToken)
    → exists (closing f) tokens ≡ true
    → exists (closing f) (revoke_family now family tokens) ≡ true
unfolding exists update revoke_family is_set
closed-revoke_family now family f [] h = h
closed-revoke_family now family f (r ∷ tokens) h =
    ground (arith, closed-revoke_family now family f tokens)

closed-append :
    (f : ℕ) (tokens more : List RefreshToken)
    → exists (closing f) tokens ≡ true
    → exists (closing f) (tokens ++ more) ≡ true
closed-append f tokens more h = ground (arith, exists-append (closing f) tokens more)

closed-rotate_row :
    (supply : Supply) (user : Option User) (row : RefreshToken) (f : ℕ)
    (before used : List RefreshToken)
    → is_closed f before ≡ true
    → is_closed f used ≡ true
    → is_closed f (rotate_row supply user row before used).1 ≡ true
unfolding rotate_row is_closed
closed-rotate_row supply none row f before used h k = h
closed-rotate_row supply (some user) row f before used h k = closed-append f used _ k

closed-refuse_row :
    (now f : ℕ) (known : Option RefreshToken) (tokens : List RefreshToken)
    → is_closed f tokens ≡ true
    → is_closed f (refuse_row now known tokens).1 ≡ true
unfolding refuse_row is_closed
closed-refuse_row now f none tokens h = h
closed-refuse_row now f (some known) tokens h =
    elim (Bool-cases (not (is_set known.used_at) || is_set known.revoked_at)) [
      | inl e ↦ rw e h
      | inr e ↦ rw e (closed-revoke_family now known.family_id f tokens h)
    ]

closed-rotate :
    (supply : Supply) (presented : Text) (users : List User) (f : ℕ) (tokens : List RefreshToken)
    → is_closed f tokens ≡ true
    → is_closed f (rotate supply presented users tokens).1 ≡ true
unfolding rotate
closed-rotate supply presented users f tokens h =
    let live = is_rotatable tokens (supply.hash_refresh presented) supply.now in
    elim (Option-cases (first live tokens)) [
      | inl e ↦ rw (e, rotate) (closed-refuse_row supply.now f _ tokens h)
      | inr (row, e) ↦
          rw (e, rotate)
            (closed-rotate_row supply _ row f tokens _ h
              (unfold is_closed in (closed-mark_used live f supply.now tokens ∙ h)))
    ]

refuse_row-issues-none :
    (supply : Supply) (now : ℕ) (known : Option RefreshToken) (tokens : List RefreshToken)
    (d : Denylist) (pair : TokenPair)
    → ¬ ((conclude supply (refuse_row now known tokens).0 d).0 ≡ ok pair)
unfolding refuse_row conclude
refuse_row-issues-none supply now none tokens d pair h = absurd (ground arith)
refuse_row-issues-none supply now (some known) tokens d pair h =
    elim (Bool-cases (not (is_set known.used_at) || is_set known.revoked_at)) [
      | inl e ↦ absurd (ground arith)
      | inr e ↦ absurd (ground arith)
    ]

rotate_row-session_id :
    (supply : Supply) (user : Option User) (row : RefreshToken) (before used : List RefreshToken)
    (d : Denylist) (pair : TokenPair)
    → (conclude supply (rotate_row supply user row before used).0 d).0 ≡ ok pair
    → row.family_id ≡ pair.session_id
unfolding rotate_row conclude
rotate_row-session_id supply none row before used d pair h = absurd (ground arith)
rotate_row-session_id supply (some user) row before used d pair h = ground arith

-- A rotation is of an open family.
rotated-open :
    (supply : Supply) (presented : Text) (users : List User) (tokens : List RefreshToken)
    (d : Denylist) (pair : TokenPair)
    → (conclude supply (rotate supply presented users tokens).0 d).0 ≡ ok pair
    → is_closed pair.session_id tokens ≡ false
unfolding rotate
rotated-open supply presented users tokens d pair h =
    let live = is_rotatable tokens (supply.hash_refresh presented) supply.now in
    elim (Option-cases (first live tokens)) [
      | inl e ↦
          absurd (refuse_row-issues-none supply supply.now _ tokens d pair (rw (e, rotate) at h))
      | inr (row, e) ↦
          subst (λ f. is_closed f tokens ≡ false)
            (rotate_row-session_id supply _ row tokens _ d pair (rw (e, rotate) at h))
            (rotatable-is_fresh tokens (supply.hash_refresh presented) supply.now row
              (first-satisfies live tokens e)).1
    ]

-- The user that a login accepts.
abbrev user_of : Supply → Text → Text → AuthState → Option User
user_of supply email password s =
    accepted supply password (first (λ u. text_eq u.email (supply.lower_case email)) s.db.users)

login-closed :
    (supply : Supply) (email password : Text) (s : AuthState) (f : ℕ)
    → is_closed f s.db.refresh_tokens ≡ true
    → is_closed f (login supply email password s).1.db.refresh_tokens ≡ true
unfolding login is_closed
login-closed supply email password s f h = elim (Option-cases (user_of supply email password s)) [
  | inl e ↦ rw (e, login) h
  | inr (user, e) ↦ rw (e, login) (closed-append f s.db.refresh_tokens _ h)
]

step-closed :
    (c : Call) (s : AuthState) (f : ℕ)
    → is_closed f s.db.refresh_tokens ≡ true
    → is_closed f (step c s).1.db.refresh_tokens ≡ true
unfolding step refresh logout
step-closed (logs_in supply email password) s f h = login-closed supply email password s f h
step-closed (refreshes supply presented) s f h =
    closed-rotate supply presented s.db.users f s.db.refresh_tokens h
step-closed (logs_out supply user) s f h =
    unfold is_closed in closed-revoke_family supply.now user.session_id f s.db.refresh_tokens h

-- The token pairs that the calls issue.
pub pairs : List Call → AuthState → List (Option TokenPair)
pairs [] s = []
pairs (c ∷ calls) s = let (pair, after) = step c s in pair ∷ pairs calls after

-- No login starts the family again.
abbrev pub Avoids : ℕ → Call → Type 0
Avoids f (logs_in supply email password) = ¬ (supply.fresh_family ≡ f)
Avoids f (refreshes supply presented) = Unit
Avoids f (logs_out supply user) = Unit

abbrev pub IsNotOf : ℕ → Option TokenPair → Type 0
IsNotOf f none = Unit
IsNotOf f (some pair) = ¬ (pair.session_id ≡ f)

login-IsNotOf :
    (supply : Supply) (email password : Text) (s : AuthState) (f : ℕ)
    → ¬ (supply.fresh_family ≡ f)
    → IsNotOf f (issued (login supply email password s).0)
unfolding login
login-IsNotOf supply email password s f a = elim (Option-cases (user_of supply email password s)) [
  | inl e ↦ rw (e, login) tt
  | inr (user, e) ↦ rw (e, login) a
]

refresh-IsNotOf :
    (supply : Supply) (presented : Text) (s : AuthState) (f : ℕ)
    → is_closed f s.db.refresh_tokens ≡ true
    → IsNotOf f (issued (refresh supply presented s).0)
refresh-IsNotOf supply presented s f h = elim (Outcome-cases (refresh supply presented s).0) [
  | inr (e, failed) ↦ rw failed tt
  | inl (pair, done) ↦
      let unclosed =
        rotated-open supply presented s.db.users s.db.refresh_tokens s.denylist pair
          (unfold refresh in done) in
      rw done
        (λ same. ground (arith, subst (λ g. is_closed g s.db.refresh_tokens ≡ false) same unclosed))
]

step-IsNotOf :
    (c : Call) (s : AuthState) (f : ℕ)
    → Avoids f c
    → is_closed f s.db.refresh_tokens ≡ true
    → IsNotOf f (step c s).0
unfolding step
step-IsNotOf (logs_in supply email password) s f a h = login-IsNotOf supply email password s f a
step-IsNotOf (refreshes supply presented) s f a h = refresh-IsNotOf supply presented s f h
step-IsNotOf (logs_out supply user) s f a h = tt

-- Once a token of a family is revoked, by a logout or after a reuse, no later login, refresh or
-- logout issues tokens of the family again, as long as no login starts the family anew.
pub pairs-IsNotOf :
    (calls : List Call) (s : AuthState) (f : ℕ)
    → All (Avoids f) calls
    → is_closed f s.db.refresh_tokens ≡ true
    → All (IsNotOf f) (pairs calls s)
unfolding pairs
pairs-IsNotOf [] s f a h = tt
pairs-IsNotOf (c ∷ calls) s f a h =
    (step-IsNotOf c s f a.0 h, pairs-IsNotOf calls (step c s).1 f a.1 (step-closed c s f h))
