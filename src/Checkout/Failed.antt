-- ===== src/Checkout/Failed.antt =====
-- Why a checkout fails, and that it then leaves the database as it was.
use one_marketplace.Base.{
  ℕ, ◌≤◌, ◌<◌, ◌≡◌, sym, ap, subst, ◌∙◌, true, none, some, List, [], inl, inr, ok, err, arith, leb,
  ◌==◌, Bool-cases, Option-cases, Outcome-cases, All, ◌⊎◌, dec_le,
}
use one_marketplace.Base.Text.{number}
use one_marketplace.Base.Table.{exists, first_of_exists, first-exists}
use one_marketplace.Base.Keyed.{guarded-first}
use one_marketplace.Entities.{Db, User, Product, PricedLine}
use one_marketplace.Checkout.Input.{
  CheckoutInput, Constraint, Context, Line, Fault, int4_max, items_empty, quantity_not_positive,
  checkout_error, query_failed, hook_failed, product_not_found, out_of_stock, user_not_found,
  insufficient_funds, unique_violation, numeric_value_out_of_range,
}
use one_marketplace.Checkout.Validate.{validate_lines}
use one_marketplace.Checkout.Body.{
  reserve_all, total_of, pays, charge, conflict, new_order, record_order, checkout_body, checkout,
}
use one_marketplace.Checkout.Rows.{product_at, user_at, DistinctIds}
use one_marketplace.Checkout.Lines.{
  requested, ValidLines, IsWhole, validate_lines-ValidLines, validate_lines_fails,
}
use one_marketplace.Checkout.Stock.{Priced, AllReserved, reserve_all-AllReserved}
use one_marketplace.Checkout.Payment.{charge-rest}
use one_marketplace.Checkout.Enough.{IsSized, Explains, reserve_all-Explains}

-- The lines of the request with the products' prices, and their total.
pub record Bill (input : CheckoutInput) (db : Db) : Type 0 where
  pub lines : List Line
  pub sold : List PricedLine
  pub request : ValidLines input.items lines
  pub prices : Priced db.products lines sold

abbrev pub due : {input : CheckoutInput} {db : Db} → Bill input db → ℕ
due b = total_of b.sold

-- What each error says of the request and of the database before it.
abbrev pub Because : Context → CheckoutInput → Db → Fault → Type 0
Because context input db items_empty = input.items ≡ []
Because context input db quantity_not_positive = ¬ All IsWhole input.items
Because context input db (checkout_error product_not_found (some t)) =
    product_at (number t) db.products ≡ none
Because context input db (checkout_error out_of_stock (some t)) =
    (p : Product) × (product_at (number t) db.products ≡ some p)
    × (p.stock < requested (number t) input.items)
Because context input db (checkout_error user_not_found none) =
    user_at input.user_id db.users ≡ none
Because context input db (checkout_error insufficient_funds none) =
    (u : User) × (b : Bill input db) × (user_at input.user_id db.users ≡ some u)
    × (u.balance < due b)
Because context input db (query_failed numeric_value_out_of_range none) =
    ((lines : List Line) × ValidLines input.items lines × ¬ All IsSized lines)
    ⊎ ((b : Bill input db) × (int4_max < due b))
Because context input db (query_failed unique_violation (some c)) =
    (total : ℕ) × (conflict (new_order db.next_order input total context.now) db.orders ≡ some c)
Because context input db hook_failed = context.hook_throws ≡ true
Because context input db _ = ⊥

charge_fails :
    (user_id total : ℕ) (db : Db) (e : Fault)
    → charge user_id total db ≡ err e
    → ((int4_max < total) × (e ≡ query_failed numeric_value_out_of_range none))
      ⊎ ((user_at user_id db.users ≡ none) × (e ≡ checkout_error user_not_found none))
      ⊎ ((u : User) × (user_at user_id db.users ≡ some u)
          × (u.balance < total)
          × (e ≡ checkout_error insufficient_funds none))
unfolding charge
charge_fails user_id total db e h = elim (dec_le total int4_max) [
  | no wide ↦ inl (omega arith, ground arith)
  | yes fits ↦ elim (Bool-cases (exists (λ u. u.id == user_id) db.users)) [
    | inr absent ↦ inr (inl (first-exists (λ u. u.id == user_id) db.users absent, ground arith))
    | inl there ↦
        let (u, found) = first_of_exists (λ u. u.id == user_id) db.users there in
        inr (inr (u, found, poor u found fits, ground arith))
  ]
]
  where
    poor : (u : User) → user_at user_id db.users ≡ some u → total ≤ int4_max → u.balance < total
    poor u found fits = elim (dec_le total u.balance) [
      | no short ↦ omega arith
      | yes rich ↦ absurd (
          ground (
            arith,
            first-exists (pays user_id total) db.users,
            guarded-first (λ (v : User). v.id) user_id (λ v. leb total v.balance) db.users u found,
          ))
    ]

record_order_fails :
    (context : Context) (input : CheckoutInput) (total id : ℕ) (sold : List PricedLine) (db : Db)
    (e : Fault)
    → record_order context input total sold id db ≡ err e
    → ((c : Constraint) × (conflict (new_order id input total context.now) db.orders ≡ some c)
        × (e ≡ query_failed unique_violation (some c)))
      ⊎ ((context.hook_throws ≡ true) × (e ≡ hook_failed))
unfolding record_order
record_order_fails context input total id sold db e h =
    elim (Option-cases (conflict (new_order id input total context.now) db.orders)) [
      | inr (c, found) ↦ inl (c, found, ground arith)
      | inl fresh ↦ inr (ground arith)
    ]

module _ (context : Context) (input : CheckoutInput) (db : Db) where
  Explains-Because :
      (lines : List Line) (e : Fault)
      → ValidLines input.items lines
      → Explains lines db.products e
      → Because context input db e
  Explains-Because lines (checkout_error product_not_found (some t)) v h = h
  Explains-Because lines (checkout_error out_of_stock (some t)) v (p, found, short) =
      (p, found, rw (← v.amounts (number t)) short)
  Explains-Because lines (query_failed numeric_value_out_of_range none) v h = inl (lines, v, h)
  Explains-Because lines _ v h = absurd h

  unpaid-Because :
      (lines : List Line) (sold : List PricedLine) (taken : Db) (e : Fault)
      → ValidLines input.items lines
      → AllReserved lines db taken sold
      → charge input.user_id (total_of sold) taken ≡ err e
      → Because context input db e
  unpaid-Because lines sold taken e v a h =
      let users = ap (λ (x : Db). x.users) a.rest in
      let bill : Bill input db = record {
        lines = lines;
        sold = sold;
        request = v;
        prices = a.prices;
      } in
      elim (charge_fails input.user_id (total_of sold) taken e h) [
        | inl (wide, why) ↦ subst (Because context input db) (sym why) (inr (bill, wide))
        | inr (inl (absent, why)) ↦ subst (Because context input db) (sym why) (rw users at absent)
        | inr (inr (u, found, poor, why)) ↦
            subst (Because context input db) (sym why) (u, bill, rw users at found, poor)
      ]

  unrecorded-Because :
      (total : ℕ) (sold : List PricedLine) (taken paid : Db) (e : Fault)
      → paid.orders ≡ db.orders
      → paid.next_order ≡ db.next_order
      → record_order context input total sold paid.next_order paid ≡ err e
      → Because context input db e
  unrecorded-Because total sold taken paid e orders id h =
      elim (record_order_fails context input total paid.next_order sold paid e h) [
        | inl (c, found, why) ↦
            subst (Because context input db) (sym why) (total, rw (orders, id) at found)
        | inr (thrown, why) ↦ subst (Because context input db) (sym why) thrown
      ]

  module _ (products_distinct : DistinctIds db.products) where
    charged-Because :
        (lines : List Line) (sold : List PricedLine) (taken : Db) (e : Fault)
        → ValidLines input.items lines
        → reserve_all lines db ≡ ok (sold, taken)
        → checkout_body context input lines db ≡ err e
        → Because context input db e
    unfolding checkout_body
    charged-Because lines sold taken e v reserved h =
        let a = reserve_all-AllReserved lines db taken sold products_distinct reserved in
        elim (Outcome-cases (charge input.user_id (total_of sold) taken)) [
          | inr (e', unpaid) ↦ unpaid-Because lines sold taken e v a (ground arith)
          | inl ((t, paid), charged) ↦
              let rest =
                charge-rest input.user_id (total_of sold) taken paid t charged
                ∙ ap (λ (x : Db). record x { users = paid.users }) a.rest in
              unrecorded-Because (total_of sold) sold taken paid e (ap (λ (x : Db). x.orders) rest)
                (ap (λ (x : Db). x.next_order) rest) (ground arith)
        ]

    body-Because :
        (lines : List Line) (e : Fault)
        → ValidLines input.items lines
        → checkout_body context input lines db ≡ err e
        → Because context input db e
    unfolding checkout_body
    body-Because lines e v h = elim (Outcome-cases (reserve_all lines db)) [
      | inr (e', failed) ↦
          Explains-Because lines e v
            (reserve_all-Explains lines db e products_distinct (ground arith))
      | inl ((sold, taken), reserved) ↦ charged-Because lines sold taken e v reserved h
    ]

    checkout-Because :
        (db' : Db) (e : Fault)
        → checkout context input db ≡ (err e, db')
        → Because context input db e
    unfolding checkout
    checkout-Because db' e h = elim (Outcome-cases (validate_lines input.items)) [
      | inr (e', failed) ↦ elim (validate_lines_fails input.items e (ground arith)) [
        | inl (empty, why) ↦ subst (Because context input db) (sym why) empty
        | inr (bad, why) ↦ subst (Because context input db) (sym why) bad
      ]
      | inl (lines, valid) ↦
          body-Because lines e (validate_lines-ValidLines input.items lines valid) (ground arith)
    ]

  pub checkout_unchanged :
      (db' : Db) (e : Fault) → checkout context input db ≡ (err e, db') → db' ≡ db
  unfolding checkout
  checkout_unchanged db' e h = elim (Outcome-cases (validate_lines input.items)) [
    | inr (e', failed) ↦ ground arith
    | inl (lines, valid) ↦ elim (Outcome-cases (checkout_body context input lines db)) [
      | inl (done, went) ↦ absurd (ground arith)
      | inr (e', failed) ↦ ground arith
    ]
  ]

-- On a database whose products have distinct ids, a checkout that throws leaves every table as it
-- was, and its error is true of the request and of the tables: the product is missing, or has less
-- than is requested of it; the buyer is missing, or has less than the total; and so on.
pub checkout_fails :
    (context : Context) (input : CheckoutInput) (e : Fault) (db db' : Db)
    → DistinctIds db.products
    → checkout context input db ≡ (err e, db')
    → (db' ≡ db) × Because context input db e
checkout_fails context input e db db' products h = (
  checkout_unchanged context input db db' e h,
  checkout-Because context input db products db' e h,
)
