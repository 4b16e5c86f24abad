-- ===== src/Checkout/Validate.antt =====
-- services/checkout.service.ts, `validateLines`.
use one_marketplace.Base.{
  ℕ, Option, none, some, List, [], ◌∷◌, Outcome, ok, err, leb, ltb, if◌then◌else◌,
}
use one_marketplace.Base.Text.{Text, number}
use one_marketplace.Checkout.Input.{
  JsNumber, whole, negative, fractional, CheckoutLine, Line, Fault, items_empty,
  quantity_not_positive,
}

-- !Number.isInteger(item.quantity) || item.quantity <= 0
unfoldable pub positive_integer : JsNumber → Option ℕ
positive_integer (whole n) = if ltb 0 n then some n else none
positive_integer (negative n) = none
positive_integer fractional = none

-- The body of the loop: the line with its quantity, or the error.
unfoldable pub checked_line : Text → Option ℕ → Outcome Fault Line
checked_line product_id none = err quantity_not_positive
checked_line product_id (some n) = ok (record { product_id = product_id; quantity = n })

unfoldable pub checked_lines : List CheckoutLine → Outcome Fault (List Line)
unfolding checked_line positive_integer
checked_lines [] = ok []
checked_lines (item ∷ items) =
    elim (checked_line item.product_id (positive_integer item.quantity)) [
      | ok line ↦ elim (checked_lines items) [ ok lines ↦ ok (line ∷ lines) | err e ↦ err e ]
      | err e ↦ err e
    ]

-- The stable sort by Number(a.productId) - Number(b.productId).
unfoldable pub insert_line : Line → List Line → List Line
insert_line line [] = line ∷ []
insert_line line (other ∷ lines) =
    if leb (number line.product_id) (number other.product_id)
    then line ∷ other ∷ lines
    else other ∷ insert_line line lines

unfoldable pub sort_lines : List Line → List Line
unfolding insert_line
sort_lines [] = []
sort_lines (line ∷ lines) = insert_line line (sort_lines lines)

unfoldable pub validate_lines : List CheckoutLine → Outcome Fault (List Line)
unfolding checked_lines sort_lines
validate_lines [] = err items_empty
validate_lines (item ∷ items) = elim (checked_lines (item ∷ items)) [
  | ok lines ↦ ok (sort_lines lines)
  | err e ↦ err e
]
