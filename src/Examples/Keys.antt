-- ===== src/Examples/Keys.antt =====
-- Requests with an Idempotency-Key.
use one_marketplace.Base.{ℕ, ◌≡◌, refl, false, List, [], ◌∷◌, Outcome, ok, err}
use one_marketplace.Base.Text.{Text, codes, text_eq}
use one_marketplace.Idempotency.{create_fingerprint}
use one_marketplace.Idempotency.Json.{
  Json, Fields, string, numeral, object, array, field, no_fields, item, no_items,
}
use one_marketplace.Idempotency.Canonical.{
  arrays, objects, next, no_more, swap, fingerprint-SameValue,
}
use one_marketplace.Idempotency.History.{Request, serve, specified_all, serve-specified}
use one_marketplace.Entities.{empty_db}
use one_marketplace.ProductsApi.{Shelf}

abbrev digest : Text → Text
digest text = text

abbrev named : Fields → Fields
named fields = field (codes "name") (string (codes "pen")) fields

abbrev priced : Fields → Fields
priced fields = field (codes "price_cents") (numeral (codes "150")) fields

abbrev pen_body : Json
pen_body = object (named (priced no_fields))

abbrev swapped_body : Json
swapped_body = object (priced (named no_fields))

keys-differ : text_eq (codes "name") (codes "price_cents") ≡ false
unfolding text_eq
keys-differ = refl

fingerprint-SameValue_example :
    create_fingerprint digest (array (item pen_body no_items))
    ≡ create_fingerprint digest (array (item swapped_body no_items))
fingerprint-SameValue_example =
    fingerprint-SameValue digest (array (item pen_body no_items))
      (array (item swapped_body no_items)) (arrays (next (objects (swap keys-differ)) no_more))

abbrev asking : Json → Outcome ℕ ℕ → Request ℕ ℕ
asking body settled = record { key = codes "k"; body = body; settled = settled }

-- A failure, a creation, its repetition and another body.
abbrev requests : List (Request ℕ ℕ)
requests =
    asking pen_body (err 1)
    ∷ asking pen_body (ok 2)
    ∷ asking swapped_body (ok 3)
    ∷ asking (string (codes "pen")) (ok 4)
    ∷ []

serve-specified_example : serve digest requests [] ≡ specified_all digest [] requests
serve-specified_example = serve-specified digest requests

abbrev empty_shelf : Shelf
empty_shelf = record { records = []; db = empty_db }
