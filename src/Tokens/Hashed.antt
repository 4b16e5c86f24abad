-- ===== src/Tokens/Hashed.antt =====
-- Passwords that are hashed and verified (auth/password.ts).
use one_marketplace.Base.{
  ℕ, ◌≡◌, refl, ap, ◌∙◌, subst, Bool, false, inl, inr, [], ◌∷◌, ◌++◌, length, arith, ◌==◌,
  Bool-cases, ==_refl,
}
use one_marketplace.Base.Text.{Text, codes, text_eq, text_eq_refl, text_eq_iff}
use one_marketplace.Base.Table.{exists}
use one_marketplace.Tokens.Password.{
  Crypto, password_scheme, extend_first, split, hash_password, is_empty, same_bytes, verify_parts,
  verify_password,
}

abbrev pub is_colon : ℕ → Bool
is_colon c = c == 58

-- What Node's base64 keeps to.
pub record IsBase64 (crypto : Crypto) : Type 0 where
  pub decodes : (bytes : Text) → crypto.from_base64 (crypto.to_base64 bytes) ≡ bytes
  pub no_colon : (bytes : Text) → exists is_colon (crypto.to_base64 bytes) ≡ false
  pub filled : (bytes : Text) → is_empty bytes ≡ false → is_empty (crypto.to_base64 bytes) ≡ false

split-append :
    (s rest : Text) → exists is_colon s ≡ false → split (s ++ (codes ":" ++ rest)) ≡ s ∷ split rest
unfolding split extend_first exists
split-append [] rest h = refl
split-append (c ∷ cs) rest h =
    let tail = split-append cs rest (ground (arith, h)) in
    let not_colon : is_colon c ≡ false = ground (arith, h) in rw (not_colon, tail) refl

split-last : (s : Text) → exists is_colon s ≡ false → split s ≡ s ∷ []
unfolding split extend_first exists
split-last [] h = refl
split-last (c ∷ cs) h =
    let tail = split-last cs (ground (arith, h)) in
    let not_colon : is_colon c ≡ false = ground (arith, h) in rw (not_colon, tail) refl

same_bytes-text_eq : (a b : Text) → same_bytes a b ≡ text_eq a b
unfolding same_bytes
same_bytes-text_eq a b = elim (Bool-cases (text_eq a b)) [
  | inl same ↦
      subst (λ x. same_bytes a x ≡ text_eq a x) ((text_eq_iff a b).0 same)
        (ground (arith, ==_refl (length a)))
  | inr other ↦ ground (arith, other)
]

-- The parts of a stored password.
split-hash_password :
    (crypto : Crypto) (salt password : Text)
    → IsBase64 crypto
    → split (hash_password crypto salt password)
      ≡ password_scheme
        ∷ crypto.to_base64 salt
        ∷ crypto.to_base64 (crypto.derive password salt)
        ∷ []
unfolding hash_password exists
split-hash_password crypto salt password base64 =
    let salt64 = crypto.to_base64 salt in
    let key = crypto.derive password salt in
    let key64 = crypto.to_base64 key in
    split-append password_scheme (salt64 ++ (codes ":" ++ key64)) refl
    ∙ ap (λ r. password_scheme ∷ r)
        (split-append salt64 key64 (base64.no_colon salt)
          ∙ ap (λ r. salt64 ∷ r) (split-last key64 (base64.no_colon key)))

-- When base64 decodes what it encodes, without a colon and nothing empty but of nothing, and salt and
-- key are not empty: a password that was hashed is verified, and another one exactly if scrypt derives
-- the same key from it with the salt.
pub verify_password-hash_password :
    (crypto : Crypto) (salt password other : Text)
    → IsBase64 crypto
    → is_empty salt ≡ false
    → is_empty (crypto.derive password salt) ≡ false
    → verify_password crypto other (hash_password crypto salt password)
      ≡ text_eq (crypto.derive other salt) (crypto.derive password salt)
unfolding verify_password verify_parts
verify_password-hash_password crypto salt password other base64 salted derived =
    let key = crypto.derive password salt in
    ap (verify_parts crypto other) (split-hash_password crypto salt password base64)
    ∙ rw
        (
          base64.filled salt salted,
          base64.filled key derived,
          base64.decodes salt,
          base64.decodes key,
        )
        (rw (text_eq_refl password_scheme) (same_bytes-text_eq (crypto.derive other salt) key))
