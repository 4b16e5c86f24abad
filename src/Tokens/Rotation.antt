-- ===== src/Tokens/Rotation.antt =====
-- Access tokens across a rotation of the keys (auth/token.service.ts, auth/verification-keys.ts).
use one_marketplace.Base.{
  ℕ, ◌+◌, ◌<◌, ◌≡◌, refl, ap, ◌∙◌, sym, subst, true, false, ◌&&◌, Option, none, some, inl, inr, [],
  ◌∷◌, arith, Bool-cases,
}
use one_marketplace.Base.Text.{Text, text_eq, text_eq_refl, text_eq_iff}
use one_marketplace.Auth.{TokenOwner, AuthenticatedUser}
use one_marketplace.Auth.Denylist.{access_token_ttl_seconds, Denylist, is_denied}
use one_marketplace.Auth.Access.{not_denied, authenticate}
use one_marketplace.Tokens.Keys.{
  KeyConfig, AccessClaims, Jwt, is_given, is_kid, is_consistent, add_key, get_key, with_previous,
  verification_keys_from_config, issued_claims, sign_access, verify_by, verify_kid, verify_access,
  user_of, verify_user,
}

-- What the library promises: a token's header names its key, and the token verifies with the public
-- key of the one that signed it, until it expires.
pub record IsSound (jwt : Jwt) (public_of : Text → Text) : Type 0 where
  pub names :
      (key kid : Text) (claims : AccessClaims) → jwt.kid_of (jwt.sign key kid claims) ≡ some kid
  pub verifies :
      (now : ℕ) (key kid : Text) (claims : AccessClaims)
      → now < claims.exp
      → jwt.verify now (public_of key) (jwt.sign key kid claims) ≡ some claims

-- The configuration that signed has the keys of a pair, and one that follows keeps its public key.
pub record IsFollowedBy (pem public_of : Text → Text) (old new : KeyConfig) : Type 0 where
  pub pair : pem old.public_key ≡ public_of (pem old.private_key)
  pub key_given : is_given (some (pem old.public_key)) ≡ true
  pub previous_kid : new.previous_kid ≡ some old.kid
  pub previous_key : new.previous_public_key ≡ some old.public_key
  pub kid_given : is_given (some old.kid) ≡ true
  pub base64_given : is_given (some old.public_key) ≡ true

-- The key of an id.
HasKey : (Text → Text) → KeyConfig → Text → Text → Type 0
HasKey pem config kid key = get_key kid (verification_keys_from_config pem config) ≡ some key

with_previous-get_key :
    (pem : Text → Text) (kid key current v : Text)
    → is_given (some kid) ≡ true
    → is_given (some key) ≡ true
    → text_eq current kid ≡ false
    → get_key kid (with_previous pem (some kid) (some key) ((current, v) ∷ [])) ≡ some (pem key)
unfolding with_previous add_key get_key is_given
with_previous-get_key pem [] key current v h k other = absurd (ground arith)
with_previous-get_key pem (c ∷ cs) [] current v h k other = absurd (ground arith)
with_previous-get_key pem (c ∷ cs) (d ∷ ds) current v h k other =
    rw (other, text_eq_refl (c ∷ cs)) (rw other refl)

text_eq-swapped : (a b : Text) → text_eq a b ≡ false → text_eq b a ≡ false
text_eq-swapped a b h = elim (Bool-cases (text_eq b a)) [
  | inl same ↦ absurd (
      ground (
        arith,
        h,
        subst (λ x. text_eq a x ≡ true) (sym ((text_eq_iff b a).0 same)) (text_eq_refl a),
      ))
  | inr other ↦ other
]

previous-HasKey :
    (pem public_of : Text → Text) (old new : KeyConfig)
    → IsFollowedBy pem public_of old new
    → is_consistent new ≡ true
    → HasKey pem new old.kid (pem old.public_key)
unfolding HasKey verification_keys_from_config is_consistent is_kid add_key
previous-HasKey pem public_of old new f c =
    let kept = rw (f.previous_kid, f.previous_key, f.kid_given, f.base64_given) at c in
    rw (f.previous_kid, f.previous_key)
      (with_previous-get_key pem old.kid old.public_key new.kid (pem new.public_key) f.kid_given
        f.base64_given (text_eq-swapped old.kid new.kid (ground (arith, kept))))

with_previous-current :
    (pem : Text → Text) (previous_kid previous_key : Option Text) (kid v : Text)
    → (is_given previous_kid && is_kid previous_kid kid) ≡ false
    → get_key kid (with_previous pem previous_kid previous_key ((kid, v) ∷ [])) ≡ some v
unfolding with_previous add_key get_key is_given is_kid
with_previous-current pem none previous_key kid v h = rw (text_eq_refl kid) refl
with_previous-current pem (some []) previous_key kid v h = rw (text_eq_refl kid) refl
with_previous-current pem (some (c ∷ cs)) none kid v h = rw (text_eq_refl kid) refl
with_previous-current pem (some (c ∷ cs)) (some []) kid v h = rw (text_eq_refl kid) refl
with_previous-current pem (some (c ∷ cs)) (some (d ∷ ds)) kid v h =
    rw (text_eq-swapped (c ∷ cs) kid h) (rw (text_eq_refl kid) refl)

current-HasKey :
    (pem : Text → Text) (config : KeyConfig)
    → is_consistent config ≡ true
    → HasKey pem config config.kid (pem config.public_key)
unfolding HasKey verification_keys_from_config is_consistent add_key
current-HasKey pem config c =
    with_previous-current pem config.previous_kid config.previous_public_key config.kid
      (pem config.public_key) (ground (arith, c))

verify_by-given :
    (jwt : Jwt) (now : ℕ) (token key : Text)
    → is_given (some key) ≡ true
    → verify_by jwt now token (some key) ≡ jwt.verify now key token
unfolding verify_by is_given
verify_by-given jwt now token [] h = absurd (ground arith)
verify_by-given jwt now token (c ∷ cs) h = refl

module _ (jwt : Jwt) (pem public_of : Text → Text) (old : KeyConfig) (sound : IsSound jwt public_of)
    (issued jti : ℕ) (owner : TokenOwner) (session : ℕ) where
  verify_access-key :
      (config : KeyConfig) (now : ℕ)
      → pem old.public_key ≡ public_of (pem old.private_key)
      → is_given (some (pem old.public_key)) ≡ true
      → HasKey pem config old.kid (pem old.public_key)
      → now < issued + access_token_ttl_seconds
      → verify_access jwt
          (verification_keys_from_config pem config)
          now
          (sign_access jwt pem old issued jti owner session)
        ≡ some (issued_claims issued jti owner session)
  unfolding verify_access verify_kid sign_access HasKey
  verify_access-key config now pair given has early =
      let claims = issued_claims issued jti owner session in
      let private_key = pem old.private_key in
      let keys = verification_keys_from_config pem config in
      let token = jwt.sign private_key old.kid claims in
      ap (verify_kid jwt keys now token) (sound.names private_key old.kid claims)
      ∙ ap (verify_by jwt now token) has
      ∙ verify_by-given jwt now token (pem old.public_key) given
      ∙ ap (λ k. jwt.verify now k token) pair
      ∙ sound.verifies now private_key old.kid claims early

-- The user of the claims.
abbrev pub owner_user : ℕ → ℕ → TokenOwner → ℕ → AuthenticatedUser
owner_user issued jti owner session = record {
  id = owner.id;
  role = owner.role;
  session_id = session;
  token_id = jti;
  expires_at = issued + access_token_ttl_seconds;
}

authenticate-verified :
    (verify : Text → Option AuthenticatedUser) (now : ℕ) (d : Denylist) (token : Text)
    (user : AuthenticatedUser)
    → verify token ≡ some user
    → authenticate verify now d token
      ≡ not_denied user (is_denied now user.token_id user.session_id d)
unfolding authenticate
authenticate-verified verify now d token user e = rw (e, authenticate) refl

-- With a sound library of tokens, a token that a consistent configuration signed is authenticated until it expires, unless it or its
-- session is denied or the denylist cannot be asked: under that configuration, and under a consistent
-- one that follows with another key and keeps the public key as the previous one.
pub authenticate-rotated :
    (jwt : Jwt) (pem public_of : Text → Text) (old new : KeyConfig) (issued now jti : ℕ)
    (owner : TokenOwner) (session : ℕ) (d : Denylist)
    → IsSound jwt public_of
    → IsFollowedBy pem public_of old new
    → is_consistent old ≡ true
    → is_consistent new ≡ true
    → now < issued + access_token_ttl_seconds
    → let token = sign_access jwt pem old issued jti owner session in
      let answer = not_denied (owner_user issued jti owner session) (is_denied now jti session d) in
      (authenticate (verify_user jwt pem old now) now d token ≡ answer)
      × (authenticate (verify_user jwt pem new now) now d token ≡ answer)
unfolding user_of verify_user
authenticate-rotated jwt pem public_of old new issued now jti owner session d sound f c c' early =
    let verified = verify_access-key jwt pem public_of old sound issued jti owner session in
    let under_old = verified old now f.pair f.key_given (current-HasKey pem old c) early in
    let under_new =
      verified new now f.pair f.key_given (previous-HasKey pem public_of old new f c') early in
    let user = owner_user issued jti owner session in
    let token = sign_access jwt pem old issued jti owner session in
    (
      authenticate-verified (verify_user jwt pem old now) now d token user (ap user_of under_old),
      authenticate-verified (verify_user jwt pem new now) now d token user (ap user_of under_new),
    )
