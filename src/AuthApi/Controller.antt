-- ===== src/AuthApi/Controller.antt =====
-- controllers/auth.controller.ts. The signature of an access token is a parameter.
use one_marketplace.Base.{ℕ, Outcome, ok, err}
use one_marketplace.Base.Text.{Text}
use one_marketplace.Entities.{UserRole}
use one_marketplace.Auth.Denylist.{access_token_ttl_seconds}
use one_marketplace.Auth.{
  Supply, TokenOwner, TokenPair, AuthFailure, invalid_credentials, invalid_refresh_token,
  owner_not_found, AuthState, AuthenticatedUser, login, refresh, logout,
}

pub record TokenPairResponse : Type 0 where
  pub access_token : Text
  pub expires_in : ℕ
  pub refresh_token : Text

pub record MeResponse : Type 0 where
  pub id : ℕ
  pub role : UserRole

-- What the service's `sign` makes of an owner and a session.
abbrev pub Sign : Type 0
Sign = TokenOwner → ℕ → Text

-- toResponse; `token_type` is always Bearer.
unfoldable pub to_response : Sign → TokenPair → TokenPairResponse
to_response sign pair = record {
  access_token = sign pair.owner pair.session_id;
  expires_in = access_token_ttl_seconds;
  refresh_token = pair.refresh_token;
}

pub data AuthHttpFailure : Type 0 where
  unauthorized service_unavailable internal : AuthHttpFailure

-- toUnauthorized; what it throws again is answered with 500.
unfoldable pub to_unauthorized : AuthFailure → AuthHttpFailure
to_unauthorized invalid_credentials = unauthorized
to_unauthorized invalid_refresh_token = unauthorized
to_unauthorized owner_not_found = internal

unfoldable pub pair_response :
    Sign → Outcome AuthFailure TokenPair → Outcome AuthHttpFailure TokenPairResponse
pair_response sign (ok pair) = ok (to_response sign pair)
pair_response sign (err e) = err (to_unauthorized e)

unfoldable pub post_login :
    Sign → Supply → Text → Text → AuthState → Outcome AuthHttpFailure TokenPairResponse × AuthState
post_login sign supply email password s =
    let (result, after) = login supply email password s in (pair_response sign result, after)

unfoldable pub post_refresh :
    Sign → Supply → Text → AuthState → Outcome AuthHttpFailure TokenPairResponse × AuthState
post_refresh sign supply presented s =
    let (result, after) = refresh supply presented s in (pair_response sign result, after)

-- Behind the guard
unfoldable pub me : AuthenticatedUser → MeResponse
me user = record { id = user.id; role = user.role }

unfoldable pub logout_response : Outcome (Unit {0}) (Unit {0}) → Outcome AuthHttpFailure (Unit {0})
logout_response (ok u) = ok tt
logout_response (err e) = err service_unavailable

unfoldable pub post_logout :
    Supply → AuthenticatedUser → AuthState → Outcome AuthHttpFailure (Unit {0}) × AuthState
post_logout supply user s =
    let (result, after) = logout supply user s in (logout_response result, after)
