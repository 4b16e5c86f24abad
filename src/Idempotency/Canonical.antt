-- ===== src/Idempotency/Canonical.antt =====
-- The canonical form of services/idempotency.service.ts does not depend on the order of fields.
use one_marketplace.Base.{
  ◌≡◌, refl, sym, ap, ◌∙◌, true, false, List, ◌∷◌, ◌++◌, map, arith, if◌then◌else◌,
}
use one_marketplace.Base.Text.{Text, codes, text_eq, text_eq_iff}
use one_marketplace.Base.Texts.{sort_texts, insert_text, join, sort_texts_swap}
use one_marketplace.Idempotency.Json.{
  Json, Items, Fields, array, object, no_items, item, no_fields, field, value_at, key_list,
  entry_text, object_text, canonicalize, canonicalize_items, canonicalize_fields,
}
use one_marketplace.Idempotency.Service.{create_fingerprint}

-- Equal values but for the order of the fields in their objects.
mutual
  pub data SameValue : Json → Json → Type 0 where
    same : {a : Json} → SameValue a a
    arrays : {xs ys : Items} → SameItems xs ys → SameValue (array xs) (array ys)
    objects : {fs gs : Fields} → SameFields fs gs → SameValue (object fs) (object gs)

  pub data SameItems : Items → Items → Type 0 where
    no_more : SameItems no_items no_items
    next :
        {a b : Json} {xs ys : Items}
        → SameValue a b
        → SameItems xs ys
        → SameItems (item a xs) (item b ys)

  pub data SameFields : Fields → Fields → Type 0 where
    finished : SameFields no_fields no_fields
    keep :
        {k : Text} {a b : Json} {fs gs : Fields}
        → SameValue a b
        → SameFields fs gs
        → SameFields (field k a fs) (field k b gs)
    swap :
        {k l : Text} {a b : Json} {fs : Fields}
        → text_eq k l ≡ false
        → SameFields (field k a (field l b fs)) (field l b (field k a fs))
    chain : {fs gs hs : Fields} → SameFields fs gs → SameFields gs hs → SameFields fs hs

-- What the text of an object depends on.
record Agree (xs ys : List (Text × Text)) : Type 0 where
  sorted : sort_texts (key_list xs) ≡ sort_texts (key_list ys)
  values : (key : Text) → value_at key xs ≡ value_at key ys

Agree-object_text : (xs ys : List (Text × Text)) → Agree xs ys → object_text xs ≡ object_text ys
unfolding object_text
Agree-object_text xs ys a =
    λ i. codes "{" ++ (join (map (entry_text (λ key. a.values key i)) (a.sorted i)) ++ codes "}")

Agree-keep :
    (k s t : Text) (xs ys : List (Text × Text))
    → s ≡ t
    → Agree xs ys
    → Agree ((k, s) ∷ xs) ((k, t) ∷ ys)
unfolding sort_texts key_list value_at
Agree-keep k s t xs ys e a = record {
  sorted = ap (insert_text k) a.sorted;
  values = λ key i. if text_eq k key then e i else a.values key i;
}

Agree-swap :
    (k l s t : Text) (xs : List (Text × Text))
    → text_eq k l ≡ false
    → Agree ((k, s) ∷ (l, t) ∷ xs) ((l, t) ∷ (k, s) ∷ xs)
unfolding key_list value_at
Agree-swap k l s t xs differ = record {
  sorted = sort_texts_swap k l (key_list xs);
  values = λ key. ground (arith, differ, same_name key);
}
  where
    same_name : (key : Text) → text_eq k key ≡ true → text_eq l key ≡ true → text_eq k l ≡ true
    same_name key h j =
        (text_eq_iff k l).1 ((text_eq_iff k key).0 h ∙ sym ((text_eq_iff l key).0 j))

unfoldable mutual
  unfolding canonicalize canonicalize_items canonicalize_fields

  canonicalize-SameValue : {a b : Json} → SameValue a b → canonicalize a ≡ canonicalize b
  canonicalize-SameValue same = refl
  canonicalize-SameValue (arrays s) =
      ap (λ texts. codes "[" ++ (join texts ++ codes "]")) (canonicalize-SameItems s)
  canonicalize-SameValue (objects s) = Agree-object_text _ _ (canonicalize-SameFields s)

  canonicalize-SameItems :
      {xs ys : Items} → SameItems xs ys → canonicalize_items xs ≡ canonicalize_items ys
  canonicalize-SameItems no_more = refl
  canonicalize-SameItems (next v s) = λ i. canonicalize-SameValue v i ∷ canonicalize-SameItems s i

  canonicalize-SameFields :
      {fs gs : Fields} → SameFields fs gs → Agree (canonicalize_fields fs) (canonicalize_fields gs)
  canonicalize-SameFields finished = record { sorted = refl; values = λ key. refl }
  canonicalize-SameFields (keep {k} v s) =
      Agree-keep k _ _ _ _ (canonicalize-SameValue v) (canonicalize-SameFields s)
  canonicalize-SameFields (swap {k} {l} differ) = Agree-swap k l _ _ _ differ
  canonicalize-SameFields (chain s t) =
      let a = canonicalize-SameFields s in
      let b = canonicalize-SameFields t in
      record { sorted = a.sorted ∙ b.sorted; values = λ key. a.values key ∙ b.values key }

-- Two bodies that are equal but for the order of the fields in their objects, at any depth, have the
-- same canonical text, and so the same fingerprint whatever the hash is.
pub fingerprint-SameValue :
    (sha256 : Text → Text) (a b : Json)
    → SameValue a b
    → create_fingerprint sha256 a ≡ create_fingerprint sha256 b
unfolding create_fingerprint
fingerprint-SameValue sha256 a b s = ap sha256 (canonicalize-SameValue s)
