-- ===== src/Auth/Reuse.antt =====
-- A refresh token that is presented again (auth/auth.service.ts, `refresh`).
use one_marketplace.Base.{
  ℕ, ◌≡◌, refl, Bool, true, false, none, some, List, [], ◌∷◌, ok, err, arith, ==_refl, All,
}
use one_marketplace.Base.Text.{Text, text_eq}
use one_marketplace.Base.Table.{first, exists, count, update}
use one_marketplace.Entities.{RefreshToken}
use one_marketplace.Auth.Service.{
  Supply, invalid_refresh_token, reused, AuthState, is_set, is_closed, is_fresh, is_rotatable,
  revoke_family, refuse_row, rotate, conclude, refresh,
}
use one_marketplace.Auth.Families.{usable}

-- Every row of the presented token was used.
abbrev pub AllUsed : Text → List RefreshToken → Type 0
AllUsed hash tokens =
    All (λ (r : RefreshToken). text_eq r.token_hash hash ≡ true → is_set r.used_at ≡ true) tokens

usable-revoked :
    (now family : ℕ) (tokens : List RefreshToken)
    → usable family (revoke_family now family tokens) ≡ 0
unfolding count update revoke_family is_fresh is_set
usable-revoked now family [] = refl
usable-revoked now family (r ∷ tokens) = ground (arith, usable-revoked now family tokens)

closed-revoked :
    (now : ℕ) (hash : Text) (known : RefreshToken) (tokens : List RefreshToken)
    → first (λ r. text_eq r.token_hash hash) tokens ≡ some known
    → is_closed known.family_id (revoke_family now known.family_id tokens) ≡ true
unfolding first exists update is_closed revoke_family is_set
closed-revoked now hash known [] h = absurd (ground arith)
closed-revoked now hash known (r ∷ tokens) h =
    ground (arith, closed-revoked now hash known tokens, ==_refl known.family_id)

known-used :
    (hash : Text) (known : RefreshToken) (tokens : List RefreshToken)
    → AllUsed hash tokens
    → first (λ r. text_eq r.token_hash hash) tokens ≡ some known
    → is_set known.used_at ≡ true
unfolding first
known-used hash known [] used h = absurd (ground arith)
known-used hash known (r ∷ tokens) used h =
    ground (arith, used.0, known-used hash known tokens used.1)

first-unused :
    (p : RefreshToken → Bool) (hash : Text)
    → ((r : RefreshToken)
        → p r ≡ true
        → (text_eq r.token_hash hash ≡ true) × (is_set r.used_at ≡ false))
    → (tokens : List RefreshToken) → AllUsed hash tokens
    → first p tokens ≡ none
unfolding first
first-unused p hash only [] used = refl
first-unused p hash only (r ∷ tokens) used =
    ground (arith, only r, used.0, first-unused p hash only tokens used.1)

pub rotatable-unused :
    (tokens : List RefreshToken) (hash : Text) (now : ℕ) (r : RefreshToken)
    → is_rotatable tokens hash now r ≡ true
    → (text_eq r.token_hash hash ≡ true) × (is_set r.used_at ≡ false)
unfolding is_rotatable is_fresh
rotatable-unused tokens hash now r h = ground arith

rotate-reused :
    (supply : Supply) (presented : Text) (s : AuthState) (known : RefreshToken)
    → first (λ r. text_eq r.token_hash (supply.hash_refresh presented)) s.db.refresh_tokens
      ≡ some known
    → AllUsed (supply.hash_refresh presented) s.db.refresh_tokens
    → is_set known.revoked_at ≡ false
    → rotate supply presented s.db.users s.db.refresh_tokens ≡ (
      ok (reused known.user_id known.family_id),
      revoke_family supply.now known.family_id s.db.refresh_tokens,
    )
unfolding rotate refuse_row
rotate-reused supply presented s known found used unrevoked =
    let hash = supply.hash_refresh presented in
    let none_live =
      first-unused (is_rotatable s.db.refresh_tokens hash supply.now) hash
        (rotatable-unused s.db.refresh_tokens hash supply.now) s.db.refresh_tokens used in
    let was_used = known-used hash known s.db.refresh_tokens used found in
    rw (none_live, rotate, found, was_used, unrevoked) refl

-- A refresh token all of whose rows were used, the first of them not revoked, is refused, and the
-- family of that row is revoked: it has no token left to use and is closed.
pub refresh-reused :
    (supply : Supply) (presented : Text) (s : AuthState) (known : RefreshToken)
    → first (λ r. text_eq r.token_hash (supply.hash_refresh presented)) s.db.refresh_tokens
      ≡ some known
    → AllUsed (supply.hash_refresh presented) s.db.refresh_tokens
    → is_set known.revoked_at ≡ false
    → ((refresh supply presented s).0 ≡ err invalid_refresh_token)
      × (usable known.family_id (refresh supply presented s).1.db.refresh_tokens ≡ 0)
      × (is_closed known.family_id (refresh supply presented s).1.db.refresh_tokens ≡ true)
unfolding refresh conclude
refresh-reused supply presented s known found used unrevoked =
    rw (rotate-reused supply presented s known found used unrevoked) (
      refl,
      usable-revoked supply.now known.family_id s.db.refresh_tokens,
      closed-revoked supply.now (supply.hash_refresh presented) known s.db.refresh_tokens found,
    )
