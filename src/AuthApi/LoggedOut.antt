-- ===== src/AuthApi/LoggedOut.antt =====
-- A refresh after a logout (controllers/auth.controller.ts, auth/auth.service.ts).
use one_marketplace.Base.{
  ℕ, ◌≡◌, refl, sym, ap, subst, Bool, true, false, Option, none, some, inl, inr, List, [], ◌∷◌, err,
  arith, ◌==◌, ==_refl, All, Bool-cases, Option-cases, if◌then◌else◌,
}
use one_marketplace.Base.Text.{Text, text_eq}
use one_marketplace.Base.Table.{first, update, first-satisfies}
use one_marketplace.Entities.{User, RefreshToken}
use one_marketplace.Auth.Denylist.{Denylist}
use one_marketplace.Auth.{
  Supply, AuthState, AuthenticatedUser, invalid_refresh_token, is_set, is_fresh, is_rotatable,
  revocable, mark_revoked, revoke_family, refuse_row, rotate, conclude, refresh, logout,
}
use one_marketplace.Auth.Families.{rotatable-is_fresh}
use one_marketplace.Auth.Reuse.{rotatable-unused}
use one_marketplace.AuthApi.Controller.{
  Sign, unauthorized, to_unauthorized, pair_response, post_refresh, post_logout,
}

module _ {A : Type 0} where
  first-All :
      (P : A → Type 0) (p : A → Bool) (xs : List A) {x : A} → All P xs → first p xs ≡ some x → P x
  unfolding first
  first-All P p [] all h = absurd (ground arith)
  first-All P p (y ∷ xs) {x} all h = elim (Bool-cases (p y)) [
    | inl e ↦ let is : y ≡ x = ground (arith, e, h) in subst P is all.0
    | inr e ↦ first-All P p xs all.1 (ground (arith, e, h))
  ]

module _ (session : ℕ) (hash : Text) where
  -- The rows of the presented token are of the session.
  abbrev pub IsOfSession : RefreshToken → Type 0
  IsOfSession r = text_eq r.token_hash hash ≡ true → r.family_id ≡ session

  -- And they are revoked.
  abbrev IsRevoked : RefreshToken → Type 0
  IsRevoked r =
      text_eq r.token_hash hash ≡ true → (r.family_id ≡ session) × (is_set r.revoked_at ≡ true)

  marked-IsRevoked :
      (now : ℕ) (r : RefreshToken) (b : Bool)
      → b ≡ revocable session r
      → IsOfSession r
      → IsRevoked (if b then mark_revoked now r else r)
  unfolding is_set
  marked-IsRevoked now r true e own = λ h. (own h, refl)
  marked-IsRevoked now r false e own = λ h.
      let same : (r.family_id == session) ≡ true =
        subst (λ n. (n == session) ≡ true) (sym (own h)) (==_refl session) in
      (own h, ground (arith, e, same))

  revoke_family-IsRevoked :
      (now : ℕ) (tokens : List RefreshToken)
      → All IsOfSession tokens
      → All IsRevoked (revoke_family now session tokens)
  unfolding revoke_family update
  revoke_family-IsRevoked now [] own = tt
  revoke_family-IsRevoked now (r ∷ tokens) own = (
    marked-IsRevoked now r (revocable session r) refl own.0,
    revoke_family-IsRevoked now tokens own.1,
  )

  first-none :
      (now : ℕ) (tokens : List RefreshToken)
      → All IsRevoked tokens
      → first (is_rotatable tokens hash now) tokens ≡ none
  unfolding is_fresh
  first-none now tokens revoked =
      elim (Option-cases (first (is_rotatable tokens hash now) tokens)) [
        | inl e ↦ e
        | inr (row, e) ↦
            let live = first-satisfies (is_rotatable tokens hash now) tokens e in
            let set =
              (first-All IsRevoked _ tokens revoked e
                (rotatable-unused tokens hash now row live).0).1 in
            let fresh = (rotatable-is_fresh tokens hash now row live).0 in
            absurd (ground (arith, set, fresh))
      ]

  refused :
      (supply : Supply) (now : ℕ) (known : Option RefreshToken) (tokens : List RefreshToken)
      (d : Denylist)
      → ((row : RefreshToken) → known ≡ some row → is_set row.revoked_at ≡ true)
      → (conclude supply (refuse_row now known tokens).0 d).0 ≡ err invalid_refresh_token
  unfolding refuse_row conclude
  refused supply now none tokens d set = refl
  refused supply now (some known) tokens d set = ground (arith, set known refl)

  known-revoked :
      (tokens : List RefreshToken)
      → All IsRevoked tokens
      → (row : RefreshToken) → first (λ r. text_eq r.token_hash hash) tokens ≡ some row
      → is_set row.revoked_at ≡ true
  known-revoked tokens revoked row found =
      (first-All IsRevoked (λ r. text_eq r.token_hash hash) tokens revoked found
        (first-satisfies (λ r. text_eq r.token_hash hash) tokens found)).1

rotate-refused :
    (session : ℕ) (supply : Supply) (presented : Text) (users : List User)
    (tokens : List RefreshToken) (d : Denylist)
    → All (IsRevoked session (supply.hash_refresh presented)) tokens
    → (conclude supply (rotate supply presented users tokens).0 d).0 ≡ err invalid_refresh_token
unfolding rotate
rotate-refused session supply presented users tokens d revoked =
    let hash = supply.hash_refresh presented in
    rw (first-none session hash supply.now tokens revoked, rotate)
      (refused session hash supply supply.now _ tokens d
        (known-revoked session hash tokens revoked))

-- After a logout, a refresh with a token whose rows are all of the session that ended is answered
-- with 401, whatever became of the write to the denylist.
pub post_refresh-unauthorized :
    (sign : Sign) (supply supply' : Supply) (user : AuthenticatedUser) (presented : Text)
    (s : AuthState)
    → All (IsOfSession user.session_id (supply'.hash_refresh presented)) s.db.refresh_tokens
    → (post_refresh sign supply' presented (post_logout supply user s).1).0 ≡ err unauthorized
unfolding post_refresh post_logout refresh logout pair_response to_unauthorized
post_refresh-unauthorized sign supply supply' user presented s own =
    let session = user.session_id in
    let hash = supply'.hash_refresh presented in
    let after = (post_logout supply user s).1 in
    ap (pair_response sign) (
      rotate-refused session supply' presented after.db.users after.db.refresh_tokens after.denylist
        (revoke_family-IsRevoked session hash supply.now s.db.refresh_tokens own))
