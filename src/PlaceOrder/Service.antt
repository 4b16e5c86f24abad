-- ===== src/PlaceOrder/Service.antt =====
-- services/place-order.service.ts: PlaceOrderService.place. Other transactions may commit between its
-- reads and its transaction: `first` before the transaction, `second` after it failed.
use one_marketplace.Base.{
  ℕ, Bool, true, false, Option, none, some, List, [], ◌∷◌, ◌++◌, map, Outcome, ok, err,
  if◌then◌else◌,
}
use one_marketplace.Base.Text.{Text, codes, text_eq, decimal}
use one_marketplace.Base.Texts.{sort_texts, join}
use one_marketplace.Entities.{Db, OrderItem}
use one_marketplace.Checkout.Input.{
  JsNumber, whole, negative, fractional, CheckoutLine, CheckoutInput, CheckoutResult, Context,
  Fault, query_failed, unique_violation, orders_user_id_idempotency_key_key,
}
use one_marketplace.Checkout.Body.{checkout}
use one_marketplace.PlaceOrder.Repository.{LoadedOrder, find_by_id, find_by_idempotency_key}

-- `${quantity}`; a fraction's text only matters in that no integer has it.
unfoldable pub quantity_text : JsNumber → Text
quantity_text (whole n) = decimal n
quantity_text (negative n) = codes "-" ++ decimal n
quantity_text fractional = codes "."

unfoldable pub line_text : CheckoutLine → Text
line_text line = line.product_id ++ (codes ":" ++ quantity_text line.quantity)

unfoldable pub normalize_lines : List CheckoutLine → Text
normalize_lines lines = join (sort_texts (map line_text lines))

-- An item as a line: the database's text of the id, and the quantity.
unfoldable pub line_of : OrderItem → CheckoutLine
line_of item = record { product_id = decimal item.product_id; quantity = whole item.quantity }

unfoldable pub is_same_request : LoadedOrder → CheckoutInput → Bool
is_same_request loaded input =
    text_eq (normalize_lines (map line_of loaded.items)) (normalize_lines input.items)

pub record PlacedOrder : Type 0 where
  pub loaded : LoadedOrder
  pub replay : Bool

pub data PlaceFailure : Type 0 where
  idempotency_key_reused order_disappeared : PlaceFailure
  thrown : Fault → PlaceFailure

-- What is found by the key is replayed if it is the same request.
unfoldable pub replay_of :
    CheckoutInput → Option LoadedOrder → Outcome PlaceFailure (Option PlacedOrder)
replay_of input none = ok none
replay_of input (some loaded) =
    if is_same_request loaded input
    then ok (some (record { loaded = loaded; replay = true }))
    else err idempotency_key_reused

-- `!input.idempotencyKey` also holds of the empty key.
unfoldable pub find_existing : CheckoutInput → Db → Outcome PlaceFailure (Option PlacedOrder)
find_existing input db = elim input.idempotency_key [
  | none ↦ ok none
  | some [] ↦ ok none
  | some (c ∷ cs) ↦ replay_of input (find_by_idempotency_key input.user_id (c ∷ cs) db)
]

unfoldable pub is_idempotency_conflict : Fault → Bool
is_idempotency_conflict (query_failed unique_violation (some orders_user_id_idempotency_key_key)) =
    true
is_idempotency_conflict _ = false

-- OrdersRepository.create, after the checkout.
unfoldable pub created : ℕ → Db → Outcome PlaceFailure PlacedOrder
created id db = elim (find_by_id id db) [
  | none ↦ err order_disappeared
  | some loaded ↦ ok (record { loaded = loaded; replay = false })
]

-- After an idempotency conflict.
unfoldable pub winner_of :
    Fault → Outcome PlaceFailure (Option PlacedOrder) → Outcome PlaceFailure PlacedOrder
winner_of e (err failure) = err failure
winner_of e (ok none) = err (thrown e)
winner_of e (ok (some placed)) = ok placed

-- What other transactions do meanwhile.
pub record Meanwhile : Type 0 where
  pub first : Db → Db
  pub second : Db → Db

-- After the checkout: its outcome, and the database that it left.
unfoldable pub after_checkout :
    Meanwhile
    → CheckoutInput
    → Outcome Fault CheckoutResult
    → Db
    → Outcome PlaceFailure PlacedOrder × Db
after_checkout meanwhile input (ok result) db = (created result.order_id db, db)
after_checkout meanwhile input (err e) db =
    if is_idempotency_conflict e
    then (winner_of e (find_existing input (meanwhile.second db)), meanwhile.second db)
    else (err (thrown e), db)

unfoldable pub place :
    Context → Meanwhile → CheckoutInput → Db → Outcome PlaceFailure PlacedOrder × Db
place context meanwhile input db = elim (find_existing input db) [
  | err failure ↦ (err failure, db)
  | ok (some placed) ↦ (ok placed, db)
  | ok none ↦
      let (result, after) = checkout context input (meanwhile.first db) in
      after_checkout meanwhile input result after
]
