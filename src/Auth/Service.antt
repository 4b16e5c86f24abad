-- ===== src/Auth/Service.antt =====
-- auth/auth.service.ts: login, refresh and logout. The tokens are rows of the database.
use one_marketplace.Base.{
  ℕ, ◌+◌, ◌/◌, Bool, true, false, not, ◌&&◌, ◌||◌, Option, none, some, List, [], ◌∷◌, ◌++◌, Outcome,
  ok, err, ltb, ◌==◌, if◌then◌else◌,
}
use one_marketplace.Base.Text.{Text, text_eq}
use one_marketplace.Base.Table.{first, exists, update}
use one_marketplace.Entities.{Db, User, UserRole, RefreshToken}
use one_marketplace.Auth.Denylist.{Denylist, Reply, revoke_session, deny}

abbrev pub refresh_token_ttl_ms : ℕ
refresh_token_ttl_ms = 604800000

-- What a call is supplied with: the time, a fresh refresh token and its row's id, a fresh family,
-- Redis's reply; and the functions `hashRefresh` and `verifyPassword`.
pub record Supply : Type 0 where
  pub now : ℕ
  pub fresh_token : Text
  pub fresh_id : ℕ
  pub fresh_family : ℕ
  pub reply : Reply
  pub hash_refresh : Text → Text
  pub verify_password : Text → Text → Bool
  pub lower_case : Text → Text

pub record TokenOwner : Type 0 where
  pub id : ℕ
  pub role : UserRole

-- The claims of the access token, and the refresh token.
pub record TokenPair : Type 0 where
  pub owner : TokenOwner
  pub session_id : ℕ
  pub refresh_token : Text

pub data AuthFailure : Type 0 where
  invalid_credentials invalid_refresh_token owner_not_found : AuthFailure

pub data RotationOutcome : Type 0 where
  rotated : TokenOwner → ℕ → Text → RotationOutcome
  reused : ℕ → ℕ → RotationOutcome
  invalid : RotationOutcome

pub record AuthState : Type 0 where
  pub db : Db
  pub denylist : Denylist

unfoldable pub is_set : Option ℕ → Bool
is_set none = false
is_set (some t) = true

-- Whether a token of the family is revoked.
unfoldable pub is_closed : ℕ → List RefreshToken → Bool
is_closed family tokens =
    exists (λ (r : RefreshToken). r.family_id == family && is_set r.revoked_at) tokens

-- Neither used nor revoked.
unfoldable pub is_fresh : RefreshToken → Bool
is_fresh row = not (is_set row.used_at) && not (is_set row.revoked_at)

-- The conditions of the UPDATE that marks a token as used.
unfoldable pub is_rotatable : List RefreshToken → Text → ℕ → RefreshToken → Bool
is_rotatable tokens hash now row =
    text_eq row.token_hash hash
    && (is_fresh row && (ltb now row.expires_at && not (is_closed row.family_id tokens)))

abbrev pub mark_used : ℕ → RefreshToken → RefreshToken
mark_used now row = record row { used_at = some now }

-- WHERE family_id = :familyId AND revoked_at IS NULL
abbrev pub revocable : ℕ → RefreshToken → Bool
revocable family row = row.family_id == family && not (is_set row.revoked_at)

abbrev pub mark_revoked : ℕ → RefreshToken → RefreshToken
mark_revoked now row = record row { revoked_at = some now }

unfoldable pub revoke_family : ℕ → ℕ → List RefreshToken → List RefreshToken
revoke_family now family tokens = update (revocable family) (mark_revoked now) tokens

abbrev pub new_token : Supply → ℕ → ℕ → RefreshToken
new_token supply user_id family = record {
  id = supply.fresh_id;
  user_id = user_id;
  family_id = family;
  token_hash = supply.hash_refresh supply.fresh_token;
  expires_at = supply.now + refresh_token_ttl_ms;
  used_at = none;
  revoked_at = none;
  created_at = supply.now;
}

-- A transaction's outcome, and the tokens that it leaves.
abbrev pub Rotation : Type 0
Rotation = Outcome AuthFailure RotationOutcome × List RefreshToken

-- Once a row was marked as used: `findOneOrFail` throws without its owner.
unfoldable pub rotate_row :
    Supply → Option User → RefreshToken → List RefreshToken → List RefreshToken → Rotation
rotate_row supply none row before used = (err owner_not_found, before)
rotate_row supply (some user) row before used = (
  ok (rotated (record { id = user.id; role = user.role }) row.family_id supply.fresh_token),
  used ++ (new_token supply user.id row.family_id ∷ []),
)

-- No row was marked: `known` is the row of the presented token.
unfoldable pub refuse_row : ℕ → Option RefreshToken → List RefreshToken → Rotation
refuse_row now none tokens = (ok invalid, tokens)
refuse_row now (some known) tokens =
    if not (is_set known.used_at) || is_set known.revoked_at
    then (ok invalid, tokens)
    else (ok (reused known.user_id known.family_id), revoke_family now known.family_id tokens)

unfoldable pub rotate : Supply → Text → List User → List RefreshToken → Rotation
rotate supply presented users tokens =
    let hash = supply.hash_refresh presented in
    let live = is_rotatable tokens hash supply.now in
    elim (first live tokens) [
      | some row ↦
          rotate_row supply (first (λ u. u.id == row.user_id) users) row tokens
            (update live (mark_used supply.now) tokens)
      | none ↦ refuse_row supply.now (first (λ r. text_eq r.token_hash hash) tokens) tokens
    ]

-- Seconds of a time in milliseconds.
unfoldable pub seconds : ℕ → ℕ
seconds ms = ms / 1000

-- What follows the transaction. A failed write to the denylist is caught.
unfoldable pub conclude :
    Supply
    → Outcome AuthFailure RotationOutcome
    → Denylist
    → Outcome AuthFailure TokenPair × Denylist
conclude supply (err e) d = (err e, d)
conclude supply (ok (rotated owner family token)) d =
    (ok (record { owner = owner; session_id = family; refresh_token = token }), d)
conclude supply (ok (reused user family)) d =
    (err invalid_refresh_token, (revoke_session supply.reply (seconds supply.now) family d).1)
conclude supply (ok invalid) d = (err invalid_refresh_token, d)

abbrev pub set_tokens : List RefreshToken → AuthState → AuthState
set_tokens tokens s = record s { db = record s.db { refresh_tokens = tokens } }

unfoldable pub refresh : Supply → Text → AuthState → Outcome AuthFailure TokenPair × AuthState
refresh supply presented s =
    let (outcome, tokens) = rotate supply presented s.db.users s.db.refresh_tokens in
    let (result, denylist) = conclude supply outcome s.denylist in
    (result, record (set_tokens tokens s) { denylist = denylist })

-- The password is checked against a dummy hash where there is none, and that check's result is not
-- used.
unfoldable pub accepted : Supply → Text → Option User → Option User
accepted supply password none = none
accepted supply password (some user) = elim user.password_hash [
  | none ↦ none
  | some hash ↦ if supply.verify_password password hash then some user else none
]

unfoldable pub login : Supply → Text → Text → AuthState → Outcome AuthFailure TokenPair × AuthState
login supply email password s =
    elim (accepted supply password
      (first (λ u. text_eq u.email (supply.lower_case email)) s.db.users)) [
        | none ↦ (err invalid_credentials, s)
        | some user ↦ (
          ok (record {
            owner = record { id = user.id; role = user.role };
            session_id = supply.fresh_family;
            refresh_token = supply.fresh_token;
          }),
          set_tokens (s.db.refresh_tokens ++ (new_token supply user.id supply.fresh_family ∷ [])) s,
        )
      ]

pub record AuthenticatedUser : Type 0 where
  pub id : ℕ
  pub role : UserRole
  pub session_id : ℕ
  pub token_id : ℕ
  pub expires_at : ℕ

unfoldable pub logout :
    Supply → AuthenticatedUser → AuthState → Outcome (Unit {0}) (Unit {0}) × AuthState
logout supply user s =
    let tokens = revoke_family supply.now user.session_id s.db.refresh_tokens in
    let (result, denylist) =
      deny supply.reply (seconds supply.now) user.token_id user.expires_at user.session_id
        s.denylist in
    (result, record (set_tokens tokens s) { denylist = denylist })
