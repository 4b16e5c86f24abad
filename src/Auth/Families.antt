-- ===== src/Auth/Families.antt =====
-- Families of refresh tokens (auth/auth.service.ts): a login starts one, each refresh passes it on.
use one_marketplace.Base.{
  ℕ, ◌+◌, ◌≤◌, ◌<◌, ◌≡◌, refl, subst, ◌∙◌, Bool, true, false, not, ◌&&◌, ◌||◌, Option, none, some,
  inl, inr, List, [], ◌∷◌, ◌++◌, Outcome, ok, err, arith, ◌==◌, ==_refl, ==_iff, if◌then◌else◌,
  Bool-cases, Option-cases,
}
use one_marketplace.Base.Text.{Text, text_eq}
use one_marketplace.Base.Table.{first, count, update, count-append}
use one_marketplace.Entities.{User, RefreshToken}
use one_marketplace.Auth.Service.{
  Supply, TokenPair, AuthFailure, AuthState, is_set, is_closed, is_fresh, is_rotatable, mark_used,
  revoke_family, new_token, rotate_row, refuse_row, rotate, refresh, login, logout, accepted,
  AuthenticatedUser,
}

abbrev in_family : ℕ → RefreshToken → Bool
in_family f r = r.family_id == f && is_fresh r

-- The tokens of a family that are neither used nor revoked.
abbrev pub usable : ℕ → List RefreshToken → ℕ
usable f tokens = count (in_family f) tokens

usable-mark_used :
    (p : RefreshToken → Bool) (f now : ℕ)
    → ((r : RefreshToken) → p r ≡ true → is_fresh r ≡ true)
    → (tokens : List RefreshToken)
    → usable f (update p (mark_used now) tokens) + count (λ r. p r && r.family_id == f) tokens
      ≡ usable f tokens
unfolding count update is_fresh is_set
usable-mark_used p f now fresh [] = refl
usable-mark_used p f now fresh (r ∷ tokens) =
    ground (arith, fresh r, usable-mark_used p f now fresh tokens)

count-first :
    (p : RefreshToken → Bool) (tokens : List RefreshToken) (row : RefreshToken)
    → first p tokens ≡ some row
    → 0 < count (λ r. p r && r.family_id == row.family_id) tokens
unfolding count first
count-first p [] row h = absurd (ground arith)
count-first p (r ∷ tokens) row h = ground (arith, count-first p tokens row, ==_refl row.family_id)

usable-revoke_family :
    (now family f : ℕ) (tokens : List RefreshToken)
    → usable f (revoke_family now family tokens) ≤ usable f tokens
unfolding count update revoke_family is_fresh is_set
usable-revoke_family now family f [] = omega arith
usable-revoke_family now family f (r ∷ tokens) =
    ground (arith, usable-revoke_family now family f tokens)

usable-append :
    (f : ℕ) (tokens : List RefreshToken) (r : RefreshToken)
    → usable f (tokens ++ (r ∷ [])) ≡ usable f tokens + (if in_family f r then 1 else 0)
unfolding count
usable-append f tokens r = count-append (in_family f) tokens (r ∷ []) ∙ ground arith

pub rotatable-is_fresh :
    (tokens : List RefreshToken) (hash : Text) (now : ℕ) (r : RefreshToken)
    → is_rotatable tokens hash now r ≡ true
    → (is_fresh r ≡ true) × (is_closed r.family_id tokens ≡ false)
unfolding is_rotatable
rotatable-is_fresh tokens hash now r h = ground arith

usable-rotate_row :
    (supply : Supply) (user : Option User) (row : RefreshToken) (f : ℕ)
    (before used : List RefreshToken)
    → usable f used ≤ usable f before
    → (row.family_id ≡ f → usable f used < usable f before)
    → usable f (rotate_row supply user row before used).1 ≤ usable f before
unfolding rotate_row is_fresh is_set
usable-rotate_row supply none row f before used le lt = omega arith
usable-rotate_row supply (some user) row f before used le lt = ground (
  arith,
  le,
  lt,
  usable-append f used (new_token supply user.id row.family_id),
  ==_iff row.family_id f,
)

usable-refuse_row :
    (now f : ℕ) (known : Option RefreshToken) (tokens : List RefreshToken)
    → usable f (refuse_row now known tokens).1 ≤ usable f tokens
unfolding refuse_row
usable-refuse_row now f none tokens = omega arith
usable-refuse_row now f (some known) tokens =
    elim (Bool-cases (not (is_set known.used_at) || is_set known.revoked_at)) [
      | inl e ↦ rw e (omega arith)
      | inr e ↦ rw e (usable-revoke_family now known.family_id f tokens)
    ]

-- A refresh leaves a family no more usable tokens than it had.
usable-rotate :
    (supply : Supply) (presented : Text) (users : List User) (f : ℕ) (tokens : List RefreshToken)
    → usable f (rotate supply presented users tokens).1 ≤ usable f tokens
unfolding rotate
usable-rotate supply presented users f tokens =
    let live = is_rotatable tokens (supply.hash_refresh presented) supply.now in
    elim (Option-cases (first live tokens)) [
      | inl e ↦ rw (e, rotate) (usable-refuse_row supply.now f _ tokens)
      | inr (row, e) ↦
          let fresh = λ (r : RefreshToken) (h : live r ≡ true).
            (rotatable-is_fresh tokens (supply.hash_refresh presented) supply.now r h).0 in
          let marked = usable-mark_used live f supply.now fresh tokens in
          let found = count-first live tokens row e in
          rw (e, rotate)
            (usable-rotate_row supply _ row f tokens _ (omega (arith, marked)) (λ same.
              subst (λ g. usable g (update live (mark_used supply.now) tokens) < usable g tokens)
                same
                (omega
                  (arith, usable-mark_used live row.family_id supply.now fresh tokens, found))))
    ]

-- A call of the service.
pub data Call : Type 0 where
  logs_in : Supply → Text → Text → Call
  refreshes : Supply → Text → Call
  logs_out : Supply → AuthenticatedUser → Call

abbrev pub issued : Outcome AuthFailure TokenPair → Option TokenPair
issued (ok pair) = some pair
issued (err e) = none

unfoldable pub step : Call → AuthState → Option TokenPair × AuthState
step (logs_in supply email password) s =
    let (result, after) = login supply email password s in (issued result, after)
step (refreshes supply presented) s =
    let (result, after) = refresh supply presented s in (issued result, after)
step (logs_out supply user) s = (none, (logout supply user s).1)

unfoldable pub run : List Call → AuthState → AuthState
run [] s = s
run (c ∷ calls) s = run calls (step c s).1

-- A login's family is new: no token has it.
abbrev pub IsNew : Call → AuthState → Type 0
IsNew (logs_in supply email password) s = usable supply.fresh_family s.db.refresh_tokens ≡ 0
IsNew (refreshes supply presented) s = Unit
IsNew (logs_out supply user) s = Unit

unfoldable pub AllNew : List Call → AuthState → Type 0
AllNew [] s = Unit
AllNew (c ∷ calls) s = IsNew c s × AllNew calls (step c s).1

abbrev pub IsSingle : AuthState → Type 0
IsSingle s = (f : ℕ) → usable f s.db.refresh_tokens ≤ 1

login-IsSingle :
    (supply : Supply) (email password : Text) (s : AuthState)
    → usable supply.fresh_family s.db.refresh_tokens ≡ 0
    → IsSingle s
    → IsSingle (login supply email password s).1
unfolding login is_fresh is_set
login-IsSingle supply email password s new single f =
    elim (Option-cases (
      accepted supply password
        (first (λ u. text_eq u.email (supply.lower_case email)) s.db.users))) [
          | inl e ↦ rw (e, login) (single f)
          | inr (user, e) ↦
              rw (e, login)
                (ground (
                  arith,
                  usable-append f s.db.refresh_tokens
                      (new_token supply user.id supply.fresh_family),
                  single f,
                  ==_iff supply.fresh_family f,
                  λ (same : supply.fresh_family ≡ f).
                      subst (λ g. usable g s.db.refresh_tokens ≡ 0) same new,
                ))
        ]

step-IsSingle : (c : Call) (s : AuthState) → IsNew c s → IsSingle s → IsSingle (step c s).1
unfolding step refresh logout
step-IsSingle (logs_in supply email password) s new single f =
    login-IsSingle supply email password s new single f
step-IsSingle (refreshes supply presented) s new single f =
    omega (arith, single f, usable-rotate supply presented s.db.users f s.db.refresh_tokens)
step-IsSingle (logs_out supply user) s new single f =
    omega (arith, single f, usable-revoke_family supply.now user.session_id f s.db.refresh_tokens)

-- If every family has at most one token that is neither used nor revoked, that holds after any
-- logins, refreshes and logouts, as long as each login's family has no such token yet.
pub run-IsSingle :
    (calls : List Call) (s : AuthState) → AllNew calls s → IsSingle s → IsSingle (run calls s)
unfolding run AllNew
run-IsSingle [] s new single = single
run-IsSingle (c ∷ calls) s new single =
    run-IsSingle calls (step c s).1 new.1 (step-IsSingle c s new.0 single)
