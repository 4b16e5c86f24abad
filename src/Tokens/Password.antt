-- ===== src/Tokens/Password.antt =====
-- auth/password.ts. scrypt and base64 are parameters; a buffer is the list of its bytes.
use one_marketplace.Base.{
  ℕ, Bool, true, false, not, ◌&&◌, List, [], ◌∷◌, ◌++◌, length, ◌==◌, if◌then◌else◌,
}
use one_marketplace.Base.Text.{Text, codes, text_eq}

pub record Crypto : Type 0 where
  pub derive : Text → Text → Text
  pub to_base64 : Text → Text
  pub from_base64 : Text → Text

abbrev pub password_scheme : Text
password_scheme = codes "scrypt"

-- .split(':')
unfoldable pub extend_first : ℕ → List Text → List Text
extend_first c [] = (c ∷ []) ∷ []
extend_first c (part ∷ parts) = (c ∷ part) ∷ parts

unfoldable pub split : Text → List Text
unfolding extend_first
split [] = [] ∷ []
split (c ∷ cs) = let rest = split cs in if c == 58 then [] ∷ rest else extend_first c rest

-- hashPassword; the salt is the random one.
unfoldable pub hash_password : Crypto → Text → Text → Text
hash_password crypto salt password =
    password_scheme
    ++ (codes ":"
        ++ (crypto.to_base64 salt ++ (codes ":" ++ crypto.to_base64 (crypto.derive password salt))))

unfoldable pub is_empty : Text → Bool
is_empty [] = true
is_empty (c ∷ cs) = false

-- `actual.length === expected.length && timingSafeEqual(actual, expected)`
unfoldable pub same_bytes : Text → Text → Bool
same_bytes actual expected = length actual == length expected && text_eq actual expected

unfoldable pub verify_parts : Crypto → Text → List Text → Bool
unfolding is_empty same_bytes
verify_parts crypto password (scheme ∷ salt ∷ key ∷ parts) =
    text_eq scheme password_scheme
    && not (is_empty salt)
    && not (is_empty key)
    && same_bytes (crypto.derive password (crypto.from_base64 salt)) (crypto.from_base64 key)
verify_parts crypto password _ = false

-- verifyPassword
unfoldable pub verify_password : Crypto → Text → Text → Bool
unfolding verify_parts split
verify_password crypto password stored = verify_parts crypto password (split stored)
