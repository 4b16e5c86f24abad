-- ===== src/Examples/Signing.antt =====
-- Tokens and passwords with a library that signs by writing the key down.
use one_marketplace.Base.{
  ℕ, zero, suc, ◌+◌, ◌-◌, ◌≡◌, refl, ap, true, false, ◌&&◌, Option, none, some, [], ◌∷◌, arith, ltb,
  if◌then◌else◌,
}
use one_marketplace.Base.Text.{Text, codes, text_eq, text_eq_refl}
use one_marketplace.Base.Table.{exists}
use one_marketplace.Entities.{UserRole, buyer, seller, admin}
use one_marketplace.Auth.{TokenOwner}
use one_marketplace.Auth.Denylist.{is_denied}
use one_marketplace.Auth.Access.{not_denied, authenticate}
use one_marketplace.Tokens.{
  KeyConfig, AccessClaims, Jwt, is_given, is_kid, same_bool, is_consistent, sign_access,
  verify_user,
}
use one_marketplace.Tokens.Rotation.{IsSound, IsFollowedBy, owner_user, authenticate-rotated}
use one_marketplace.Tokens.Password.{Crypto, is_empty, hash_password, verify_password}
use one_marketplace.Tokens.Hashed.{is_colon, IsBase64, verify_password-hash_password}
use one_marketplace.Examples.Access.{in_sync}

unfoldable role_code : UserRole → ℕ
role_code buyer = 0
role_code seller = 1
role_code admin = 2

unfoldable role_of : ℕ → UserRole
role_of zero = buyer
role_of (suc zero) = seller
role_of (suc (suc n)) = admin

role_of-role_code : (r : UserRole) → role_of (role_code r) ≡ r
unfolding role_of role_code
role_of-role_code buyer = refl
role_of-role_code seller = refl
role_of-role_code admin = refl

-- The key's id, each unit after a 1, and after a 0 the key.
unfoldable header : Text → Text → Text
header [] key = 0 ∷ key
header (c ∷ cs) key = 1 ∷ c ∷ header cs key

unfoldable push : ℕ → Option Text → Option Text
push c none = none
push c (some cs) = some (c ∷ cs)

unfoldable header_kid : Text → Option Text
unfolding push
header_kid [] = none
header_kid (zero ∷ rest) = some []
header_kid (suc n ∷ []) = none
header_kid (suc n ∷ c ∷ rest) = push c (header_kid rest)

unfoldable header_key : Text → Text
header_key [] = []
header_key (zero ∷ rest) = rest
header_key (suc n ∷ []) = []
header_key (suc n ∷ c ∷ rest) = header_key rest

header_kid-header : (kid key : Text) → header_kid (header kid key) ≡ some kid
unfolding header_kid header push
header_kid-header [] key = refl
header_kid-header (c ∷ cs) key = ap (push c) (header_kid-header cs key)

header_key-header : (kid key : Text) → header_key (header kid key) ≡ key
unfolding header_key header
header_key-header [] key = refl
header_key-header (c ∷ cs) key = header_key-header cs key

unfoldable plain_kid : Text → Option Text
unfolding header_kid
plain_kid (sub ∷ role ∷ sid ∷ jti ∷ iat ∷ exp ∷ rest) = header_kid rest
plain_kid _ = none

unfoldable plain_verify : ℕ → Text → Text → Option AccessClaims
unfolding role_of header_key
plain_verify now key (sub ∷ role ∷ sid ∷ jti ∷ iat ∷ exp ∷ rest) =
    if ltb now exp && text_eq key (header_key rest)
    then some record { sub = sub; role = role_of role; sid = sid; jti = jti; iat = iat; exp = exp }
    else none
plain_verify now key _ = none

abbrev plain : Jwt
plain = record {
  sign = λ key kid claims.
      claims.sub
      ∷ role_code claims.role
      ∷ claims.sid
      ∷ claims.jti
      ∷ claims.iat
      ∷ claims.exp
      ∷ header kid key;
  kid_of = plain_kid;
  verify = plain_verify;
}

plain-IsSound : IsSound plain (λ key. key)
unfolding plain_kid plain_verify
plain-IsSound = record {
  names = λ key kid claims. header_kid-header kid key;
  verifies = λ now key kid claims early.
      rw (header_key-header kid key, text_eq_refl key, role_of-role_code claims.role)
        (ground (arith, early));
}

abbrev first_keys : KeyConfig
first_keys = record {
  private_key = codes "s1";
  public_key = codes "s1";
  kid = codes "k1";
  previous_kid = none;
  previous_public_key = none;
}

abbrev next_keys : KeyConfig
next_keys = record {
  private_key = codes "s2";
  public_key = codes "s2";
  kid = codes "k2";
  previous_kid = some (codes "k1");
  previous_public_key = some (codes "s1");
}

first-IsConsistent : is_consistent first_keys ≡ true
unfolding is_consistent is_given is_kid same_bool
first-IsConsistent = refl

next-IsConsistent : is_consistent next_keys ≡ true
unfolding is_consistent is_given is_kid same_bool text_eq
next-IsConsistent = refl

keys-IsFollowedBy : IsFollowedBy (λ key. key) (λ key. key) first_keys next_keys
unfolding is_given
keys-IsFollowedBy = record {
  pair = refl;
  key_given = refl;
  previous_kid = refl;
  previous_key = refl;
  kid_given = refl;
  base64_given = refl;
}

abbrev owner : TokenOwner
owner = record { id = 7; role = buyer }

authenticate-rotated_example :
    let token = sign_access plain (λ key. key) first_keys 100 8 owner 50 in
    let answer = not_denied (owner_user 100 8 owner 50) (is_denied 300 8 50 in_sync) in
    (authenticate (verify_user plain (λ key. key) first_keys 300) 300 in_sync token ≡ answer)
    × (authenticate (verify_user plain (λ key. key) next_keys 300) 300 in_sync token ≡ answer)
authenticate-rotated_example =
    authenticate-rotated plain (λ key. key) (λ key. key) first_keys next_keys 100 300 8 owner 50
      in_sync plain-IsSound keys-IsFollowedBy first-IsConsistent next-IsConsistent (omega arith)

unfoldable shift : Text → Text
shift [] = []
shift (c ∷ cs) = (c + 59) ∷ shift cs

unfoldable unshift : Text → Text
unshift [] = []
unshift (c ∷ cs) = (c - 59) ∷ unshift cs

unshift-shift : (s : Text) → unshift (shift s) ≡ s
unfolding unshift shift
unshift-shift [] = refl
unshift-shift (c ∷ cs) = ground (arith, unshift-shift cs)

shift-no_colon : (s : Text) → exists is_colon (shift s) ≡ false
unfolding exists shift
shift-no_colon [] = refl
shift-no_colon (c ∷ cs) = ground (arith, shift-no_colon cs)

shift-filled : (s : Text) → is_empty s ≡ false → is_empty (shift s) ≡ false
unfolding is_empty shift
shift-filled [] h = h
shift-filled (c ∷ cs) h = refl

abbrev crypto : Crypto
crypto = record { derive = λ password salt. 1 ∷ password; to_base64 = shift; from_base64 = unshift }

crypto-IsBase64 : IsBase64 crypto
crypto-IsBase64 = record {
  decodes = unshift-shift;
  no_colon = shift-no_colon;
  filled = shift-filled;
}

salt-filled : is_empty (codes "salt") ≡ false
unfolding is_empty
salt-filled = refl

derived-filled : is_empty (crypto.derive (codes "pw") (codes "salt")) ≡ false
unfolding is_empty
derived-filled = refl

verify_password-hash_password_example :
    verify_password crypto (codes "other") (hash_password crypto (codes "salt") (codes "pw"))
    ≡ text_eq (1 ∷ codes "other") (1 ∷ codes "pw")
verify_password-hash_password_example =
    verify_password-hash_password crypto (codes "salt") (codes "pw") (codes "other") crypto-IsBase64
      salt-filled derived-filled
