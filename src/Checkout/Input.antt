-- ===== src/Checkout/Input.antt =====
-- services/checkout.service.ts: what a checkout is given, what it returns and how it fails.
use one_marketplace.Base.{ℕ, Bool, Option, List}
use one_marketplace.Base.Text.{Text}

-- A number of the request body.
pub data JsNumber : Type 0 where
  whole : ℕ → JsNumber
  negative : ℕ → JsNumber
  fractional : JsNumber

pub record CheckoutLine : Type 0 where
  pub product_id : Text
  pub quantity : JsNumber

pub record CheckoutInput : Type 0 where
  pub user_id : ℕ
  pub items : List CheckoutLine
  pub idempotency_key : Option Text

-- A line whose quantity passed the validation.
pub record Line : Type 0 where
  pub product_id : Text
  pub quantity : ℕ

pub record CheckoutResult : Type 0 where
  pub order_id : ℕ
  pub total : ℕ

pub data CheckoutFailure : Type 0 where
  product_not_found out_of_stock user_not_found insufficient_funds : CheckoutFailure

-- The `code` of a driver error.
pub data SqlState : Type 0 where
  serialization_failure deadlock_detected unique_violation numeric_value_out_of_range : SqlState

-- The `constraint` of a driver error: the unique indexes of the orders.
pub data Constraint : Type 0 where
  orders_user_id_created_at_idx orders_user_id_idempotency_key_key : Constraint

pub data Fault : Type 0 where
  items_empty quantity_not_positive : Fault
  checkout_error : CheckoutFailure → Option Text → Fault
  query_failed : SqlState → Option Constraint → Fault
  hook_failed : Fault

-- What the database supplies to the transaction: its time, the outbox row's uuid, and whether the
-- hook after the outbox write throws.
pub record Context : Type 0 where
  pub now : ℕ
  pub outbox_id : ℕ
  pub hook_throws : Bool

-- The largest `integer` and `bigint`.
abbrev pub int4_max : ℕ
int4_max = 2147483647

abbrev pub int8_max : ℕ
int8_max = 9223372036854775807
