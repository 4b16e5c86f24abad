-- ===== src/Checkout/Placed.antt =====
-- What a checkout that succeeds has done, as a whole; one that fails has done nothing.
use one_marketplace.Base.{
  ℕ, ◌*◌, ◌≡◌, sym, ap, subst, ◌∙◌, none, List, inl, inr, ok, arith, ◌==◌, if◌then◌else◌, sum_by,
  Outcome-cases,
}
use one_marketplace.Entities.{Db, PricedLine}
use one_marketplace.Checkout.Input.{CheckoutInput, CheckoutResult, Context, Line}
use one_marketplace.Checkout.Validate.{validate_lines}
use one_marketplace.Checkout.Body.{
  reserve_all, total_of, charge, conflict, new_order, record_order, checkout,
}
use one_marketplace.Checkout.Rows.{product_at, user_at, DistinctIds, DistinctUsers, Taken, Charged}
use one_marketplace.Checkout.Lines.{requested, ValidLines, validate_lines-ValidLines}
use one_marketplace.Checkout.Stock.{Priced, reserve_all-AllReserved}
use one_marketplace.Checkout.Payment.{writes, charge-Paid, record_order-eq-writes, total_from-sum}

-- The database after a checkout, against the database before it.
pub record Placed (context : Context) (input : CheckoutInput) (r : CheckoutResult) (db db' : Db)
    : Type 0 where
  pub lines : List Line
  pub sold : List PricedLine
  -- The lines are those of the request, at the prices of the products.
  pub valid : validate_lines input.items ≡ ok lines
  pub request : ValidLines input.items lines
  pub prices : Priced db.products lines sold
  pub total : r.total ≡ sum_by (λ line. line.quantity * line.unit_price) sold
  -- Each product loses what was requested of it, and the buyer alone pays the total.
  pub stock :
      (id : ℕ)
      → Taken (requested id input.items) (product_at id db.products) (product_at id db'.products)
  pub money :
      (id : ℕ)
      → Charged
          (if id == input.user_id then r.total else 0)
          (user_at id db.users)
          (user_at id db'.users)
  -- One order, its items, one job and one event are written, and no other table changes.
  pub order_id : r.order_id ≡ db.next_order
  pub fresh : conflict (new_order db.next_order input r.total context.now) db.orders ≡ none
  pub written :
      db'
      ≡ writes context input r.total db.next_order sold
          (record db { products = db'.products; users = db'.users })

-- The transaction's statements that a successful checkout went through.
record Went (context : Context) (input : CheckoutInput) (r : CheckoutResult) (db db' : Db)
    : Type 0 where
  lines : List Line
  sold : List PricedLine
  taken : Db
  paid : Db
  valid : validate_lines input.items ≡ ok lines
  reserved : reserve_all lines db ≡ ok (sold, taken)
  charged : charge input.user_id (total_of sold) taken ≡ ok (tt, paid)
  recorded : record_order context input (total_of sold) sold paid.next_order paid ≡ ok (r, db')

module _ (context : Context) (input : CheckoutInput) (r : CheckoutResult) (db db' : Db) where
  Went-Placed :
      Went context input r db db'
      → DistinctIds db.products
      → DistinctUsers db.users
      → Placed context input r db db'
  unfolding total_of
  Went-Placed w products_distinct users_distinct =
      let v = validate_lines-ValidLines input.items w.lines w.valid in
      let a = reserve_all-AllReserved w.lines db w.taken w.sold products_distinct w.reserved in
      let users = ap (λ (x : Db). x.users) a.rest in
      let p =
        charge-Paid input.user_id (total_of w.sold) w.taken w.paid tt
          (subst DistinctUsers (sym users) users_distinct) w.charged in
      let (fresh, written, result) =
        record_order-eq-writes context input (total_of w.sold) w.paid.next_order w.sold w.paid db' r
          w.recorded in
      let paid_all = p.rest ∙ ap (λ (x : Db). record x { users = w.paid.users }) a.rest in
      let products = ap (λ (x : Db). x.products) written ∙ ap (λ (x : Db). x.products) paid_all in
      let orders = ap (λ (x : Db). x.orders) paid_all in
      let users' = ap (λ (x : Db). x.users) written in
      let id = ap (λ (x : Db). x.next_order) paid_all in
      let total = ap (λ (x : CheckoutResult). x.total) result in
      record {
        lines = w.lines;
        sold = w.sold;
        valid = w.valid;
        request = v;
        prices = a.prices;
        total = total ∙ total_from-sum 0 w.sold ∙ omega arith;
        stock = λ j. rw (products, ← v.amounts j) (a.stock j);
        money = λ j. rw (users', total) (rw users at p.money j);
        order_id = ap (λ (x : CheckoutResult). x.order_id) result ∙ id;
        fresh =
            (λ i. conflict (new_order (sym id i) input (total i) context.now) (sym orders i))
            ∙ fresh;
        written =
            written ∙ (λ i. writes context input (sym total i) (id i) w.sold (paid_all i)) ∙ (λ i.
              writes context input r.total db.next_order w.sold
                (record db { products = sym products i; users = sym users' i }));
      }

  checkout-Went : checkout context input db ≡ (ok r, db') → Went context input r db db'
  unfolding checkout
  checkout-Went h = elim (Outcome-cases (validate_lines input.items)) [
    | inr (e, failed) ↦ absurd (ground arith)
    | inl (lines, valid) ↦ elim (Outcome-cases (reserve_all lines db)) [
      | inr (e, failed) ↦ absurd (ground arith)
      | inl ((sold, taken), reserved) ↦
          elim (Outcome-cases (charge input.user_id (total_of sold) taken)) [
            | inr (e, failed) ↦ absurd (ground arith)
            | inl ((t, paid), charged) ↦ record {
              lines = lines;
              sold = sold;
              taken = taken;
              paid = paid;
              valid = valid;
              reserved = reserved;
              charged = charged;
              recorded = ground arith;
            }
          ]
    ]
  ]

-- On a database whose products and users have distinct ids, a checkout that returns has taken from
-- each product what the request asks of it, at the product's price, and the total from the buyer
-- alone; it has written one order, its items, one job and one event, and nothing else.
pub checkout-Placed :
    (context : Context) (input : CheckoutInput) (r : CheckoutResult) (db db' : Db)
    → DistinctIds db.products
    → DistinctUsers db.users
    → checkout context input db ≡ (ok r, db')
    → Placed context input r db db'
checkout-Placed context input r db db' products users h =
    Went-Placed context input r db db' (checkout-Went context input r db db' h) products users
