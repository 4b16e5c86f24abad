-- ===== src/Tokens/Keys.antt =====
-- auth/token.service.ts and auth/verification-keys.ts, the options of the tokens in
-- auth/auth.module.ts, and what config/env.schema.ts asks of the keys. The tokens' library is a
-- parameter.
use one_marketplace.Base.{
  ℕ, ◌+◌, Bool, true, false, not, ◌&&◌, Option, none, some, List, [], ◌∷◌, if◌then◌else◌,
}
use one_marketplace.Base.Text.{Text, text_eq}
use one_marketplace.Entities.{UserRole}
use one_marketplace.Auth.Denylist.{access_token_ttl_seconds}
use one_marketplace.Auth.{TokenOwner, AuthenticatedUser}

-- The keys in the environment, in base64.
pub record KeyConfig : Type 0 where
  pub private_key : Text
  pub public_key : Text
  pub kid : Text
  pub previous_kid : Option Text
  pub previous_public_key : Option Text

pub record AccessClaims : Type 0 where
  pub sub : ℕ
  pub role : UserRole
  pub sid : ℕ
  pub jti : ℕ
  pub iat : ℕ
  pub exp : ℕ

-- The library, with the algorithm, issuer and audience of the module: `sign` takes the key, its id
-- and the claims, `kid_of` reads the id in a token's header, and `verify` takes the time.
pub record Jwt : Type 0 where
  pub sign : Text → Text → AccessClaims → Text
  pub kid_of : Text → Option Text
  pub verify : ℕ → Text → Text → Option AccessClaims

-- Boolean(text)
unfoldable pub is_given : Option Text → Bool
is_given none = false
is_given (some []) = false
is_given (some (c ∷ cs)) = true

unfoldable pub is_kid : Option Text → Text → Bool
is_kid none kid = false
is_kid (some previous) kid = text_eq previous kid

unfoldable pub same_bool : Bool → Bool → Bool
same_bool true b = b
same_bool false b = not b

-- superRefine
unfoldable pub is_consistent : KeyConfig → Bool
unfolding is_given is_kid same_bool
is_consistent config =
    same_bool (is_given config.previous_kid) (is_given config.previous_public_key)
    && not (is_given config.previous_kid && is_kid config.previous_kid config.kid)

abbrev pub VerificationKeys : Type 0
VerificationKeys = List (Text × Text)

-- Map.set
unfoldable pub add_key : Text → Text → VerificationKeys → VerificationKeys
add_key kid key [] = (kid, key) ∷ []
add_key kid key ((k, v) ∷ keys) =
    let rest = add_key kid key keys in if text_eq k kid then (k, key) ∷ keys else (k, v) ∷ rest

-- Map.get
unfoldable pub get_key : Text → VerificationKeys → Option Text
get_key kid [] = none
get_key kid ((k, v) ∷ keys) = let rest = get_key kid keys in if text_eq k kid then some v else rest

unfoldable pub with_previous :
    (Text → Text) → Option Text → Option Text → VerificationKeys → VerificationKeys
unfolding add_key
with_previous pem (some (c ∷ cs)) (some (d ∷ ds)) keys = add_key (c ∷ cs) (pem (d ∷ ds)) keys
with_previous pem _ _ keys = keys

-- verificationKeysFromConfig; `pem` is pemFromBase64.
unfoldable pub verification_keys_from_config : (Text → Text) → KeyConfig → VerificationKeys
unfolding with_previous
verification_keys_from_config pem config =
    with_previous pem config.previous_kid config.previous_public_key
      (add_key config.kid (pem config.public_key) [])

abbrev pub issued_claims : ℕ → ℕ → TokenOwner → ℕ → AccessClaims
issued_claims now jti owner session = record {
  sub = owner.id;
  role = owner.role;
  sid = session;
  jti = jti;
  iat = now;
  exp = now + access_token_ttl_seconds;
}

-- signAccess
unfoldable pub sign_access : Jwt → (Text → Text) → KeyConfig → ℕ → ℕ → TokenOwner → ℕ → Text
sign_access jwt pem config now jti owner session =
    jwt.sign (pem config.private_key) config.kid (issued_claims now jti owner session)

-- The key, unless it is undefined or empty.
unfoldable pub verify_by : Jwt → ℕ → Text → Option Text → Option AccessClaims
verify_by jwt now token none = none
verify_by jwt now token (some []) = none
verify_by jwt now token (some (c ∷ cs)) = jwt.verify now (c ∷ cs) token

unfoldable pub verify_kid : Jwt → VerificationKeys → ℕ → Text → Option Text → Option AccessClaims
unfolding verify_by get_key
verify_kid jwt keys now token none = none
verify_kid jwt keys now token (some kid) = verify_by jwt now token (get_key kid keys)

-- verifyAccess
unfoldable pub verify_access : Jwt → VerificationKeys → ℕ → Text → Option AccessClaims
unfolding verify_kid
verify_access jwt keys now token = verify_kid jwt keys now token (jwt.kid_of token)

-- What `authenticate` makes of the claims.
unfoldable pub user_of : Option AccessClaims → Option AuthenticatedUser
user_of none = none
user_of (some claims) = some record {
  id = claims.sub;
  role = claims.role;
  session_id = claims.sid;
  token_id = claims.jti;
  expires_at = claims.exp;
}

-- The verification that `authenticate` calls.
unfoldable pub verify_user : Jwt → (Text → Text) → KeyConfig → ℕ → Text → Option AuthenticatedUser
unfolding user_of verify_access verification_keys_from_config
verify_user jwt pem config now token =
    user_of (verify_access jwt (verification_keys_from_config pem config) now token)
