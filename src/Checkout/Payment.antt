-- ===== src/Checkout/Payment.antt =====
-- The payment of a checkout and the rows that it writes.
use one_marketplace.Base.{
  ℕ, suc, ◌+◌, ◌*◌, ◌≡◌, none, List, [], ◌∷◌, ◌++◌, inl, inr, ok, arith, ◌==◌, if◌then◌else◌,
  sum_by, Bool-cases, Option-cases,
}
use one_marketplace.Base.Table.{exists, first_of_exists}
use one_marketplace.Entities.{Db, PricedLine}
use one_marketplace.Checkout.Input.{CheckoutInput, CheckoutResult, Context}
use one_marketplace.Checkout.Body.{
  total_from, pays, charge, conflict, new_order, item_rows, receipt_job, order_event, outbox_row,
  count_lines, record_order,
}
use one_marketplace.Checkout.Rows.{user_at, DistinctUsers, Charged, user_at-update}

pub total_from-sum :
    (sum : ℕ) (lines : List PricedLine)
    → total_from sum lines ≡ sum + sum_by (λ line. line.quantity * line.unit_price) lines
unfolding total_from
total_from-sum sum [] = omega arith
total_from-sum sum (line ∷ lines) =
    omega (arith, total_from-sum (sum + line.quantity * line.unit_price) lines)

-- What the payment does.
pub record Paid (user_id total : ℕ) (db db' : Db) : Type 0 where
  pub money :
      (v : ℕ)
      → Charged (if v == user_id then total else 0) (user_at v db.users) (user_at v db'.users)
  pub rest : db' ≡ record db { users = db'.users }

pub charge-rest :
    (user_id total : ℕ) (db db' : Db) (t : Unit)
    → charge user_id total db ≡ ok (t, db')
    → db' ≡ record db { users = db'.users }
unfolding charge
charge-rest user_id total db db' t h = ground arith

pub charge-Paid :
    (user_id total : ℕ) (db db' : Db) (t : Unit)
    → DistinctUsers db.users
    → charge user_id total db ≡ ok (t, db')
    → Paid user_id total db db'
unfolding charge
charge-Paid user_id total db db' t d h = elim (Bool-cases (exists (pays user_id total) db.users)) [
  | inr e ↦ absurd (ground arith)
  | inl e ↦
      let (u, found) = first_of_exists (pays user_id total) db.users e in
      let rows = user_at-update user_id total db.users u d found in
      record { money = λ v. ground (arith, rows v); rest = charge-rest user_id total db db' t h }
]

-- The order, its items, the job and the event added to a database.
abbrev pub writes : Context → CheckoutInput → ℕ → ℕ → List PricedLine → Db → Db
writes context input total id sold db = record db {
  orders = db.orders ++ new_order id input total context.now ∷ [];
  next_order = suc db.next_order;
  order_items = db.order_items ++ item_rows id db.next_item sold;
  next_item = count_lines db.next_item sold;
  jobs = db.jobs ++ receipt_job db.next_job id context.now ∷ [];
  next_job = suc db.next_job;
  outbox =
      db.outbox ++ outbox_row context id (order_event id input.user_id total context.now sold) ∷ [];
}

pub record_order-eq-writes :
    (context : Context) (input : CheckoutInput) (total id : ℕ) (sold : List PricedLine)
    (db db' : Db) (r : CheckoutResult)
    → record_order context input total sold id db ≡ ok (r, db')
    → (conflict (new_order id input total context.now) db.orders ≡ none)
      × (db' ≡ writes context input total id sold db)
      × (r ≡ record { order_id = id; total = total })
unfolding record_order
record_order-eq-writes context input total id sold db db' r h =
    elim (Option-cases (conflict (new_order id input total context.now) db.orders)) [
      | inr (c, e) ↦ absurd (ground arith)
      | inl e ↦ (e, ground arith, ground arith)
    ]
