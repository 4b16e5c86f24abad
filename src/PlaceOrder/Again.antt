-- ===== src/PlaceOrder/Again.antt =====
-- An order request that is sent again (services/place-order.service.ts).
use one_marketplace.Base.{
  ℕ, suc, ◌≡◌, refl, sym, ap, subst, ◌∙◌, Bool, true, false, ◌&&◌, none, some, inl, inr, List, [],
  ◌∷◌, ◌++◌, map, ok, arith, ◌==◌, ==_refl, All,
}
use one_marketplace.Base.Text.{Text, text_eq, text_eq_refl}
use one_marketplace.Base.Table.{
  first, exists, select, first-append-none, first-exists, select-append_none,
}
use one_marketplace.Entities.{Db, Order, OrderItem, PricedLine}
use one_marketplace.Checkout.Input.{CheckoutInput, CheckoutResult, Context}
use one_marketplace.Checkout.Body.{same_key, conflict, new_order, item_rows}
use one_marketplace.Checkout.Rows.{DistinctIds, DistinctUsers}
use one_marketplace.Checkout.Placed.{Placed, checkout-Placed}
use one_marketplace.PlaceOrder.Repository.{
  with_items, load_first, find_by_id, find_by_idempotency_key,
}
use one_marketplace.PlaceOrder.Service.{
  line_of, normalize_lines, is_same_request, PlacedOrder, replay_of, find_existing, Meanwhile,
  place,
}
use one_marketplace.PlaceOrder.Answers.{place-answer}
use one_marketplace.PlaceOrder.Normal.{IsPrinted, normalize-items}

-- No order and no item has the id that the next order gets.
pub record IsNew (db : Db) : Type 0 where
  pub orders : exists (λ (o : Order). o.id == db.next_order) db.orders ≡ false
  pub items : exists (λ (i : OrderItem). i.order_id == db.next_order) db.order_items ≡ false

select-item_rows :
    (id next : ℕ) (sold : List PricedLine)
    → select (λ (i : OrderItem). i.order_id == id) (item_rows id next sold) ≡ item_rows id next sold
unfolding select item_rows
select-item_rows id next [] = refl
select-item_rows id next (line ∷ sold) =
    ground (arith, ==_refl id, select-item_rows id (suc next) sold)

unfresh-key :
    (order : Order) (orders : List Order) (key : Text)
    → order.idempotency_key ≡ some key
    → conflict order orders ≡ none
    → exists
        (λ (o : Order). o.user_id == order.user_id && same_key o.idempotency_key (some key))
        orders
      ≡ false
unfolding conflict
unfresh-key order orders key own fresh =
    subst
      (λ k.
        exists (λ (o : Order). o.user_id == order.user_id && same_key o.idempotency_key k) orders
        ≡ false)
      own (ground arith)

first-append-fresh :
    (q : Order → Bool) (orders : List Order) (order : Order)
    → exists q orders ≡ false
    → q order ≡ true
    → first q (orders ++ order ∷ []) ≡ some order
unfolding first
first-append-fresh q orders order absent own =
    first-append-none q orders (order ∷ []) (first-exists q orders absent) ∙ ground (arith, own)

-- What is found of the order that a checkout wrote in the database `db'`.
module _ (context : Context) (input : CheckoutInput) (r : CheckoutResult) (db db' : Db)
    (p : Placed context input r db db') (new : IsNew db) where
  abbrev order_of : Order
  order_of = new_order db.next_order input r.total context.now

  orders_after : db'.orders ≡ db.orders ++ order_of ∷ []
  orders_after = ap (λ (x : Db). x.orders) p.written

  found_by_id : find_by_id r.order_id db' ≡ some (with_items db' order_of)
  unfolding find_by_id load_first new_order
  found_by_id =
      let found : first (λ (o : Order). o.id == r.order_id) db'.orders ≡ some order_of =
        rw (orders_after, p.order_id)
          (first-append-fresh (λ o. o.id == db.next_order) db.orders order_of new.orders
            (==_refl db.next_order)) in
      ground (arith, found)

  found_by_key :
      (key : Text)
      → input.idempotency_key ≡ some key
      → find_by_idempotency_key input.user_id key db' ≡ some (with_items db' order_of)
  unfolding find_by_idempotency_key load_first new_order
  found_by_key key own =
      let q = λ (o : Order). o.user_id == input.user_id && same_key o.idempotency_key (some key) in
      let found : first q db'.orders ≡ some order_of = rw orders_after (
        first-append-fresh q db.orders order_of (unfresh-key order_of db.orders key own p.fresh)
          (ground (arith, own, ==_refl input.user_id, text_eq_refl key))) in
      ground (arith, found)

  same_request :
      All (λ item. IsPrinted item.product_id) input.items
      → is_same_request (with_items db' order_of) input ≡ true
  unfolding is_same_request with_items new_order
  same_request printed =
      let own = λ (i : OrderItem). i.order_id == db.next_order in
      let rows = item_rows db.next_order db.next_item p.sold in
      let items : select own db'.order_items ≡ rows =
        ap (λ (x : Db). select own x.order_items) p.written
        ∙ select-append_none own db.order_items rows new.items
        ∙ select-item_rows db.next_order db.next_item p.sold in
      let texts =
        normalize-items db.products db.next_order db.next_item input.items p.lines p.sold p.valid
          p.prices printed in
      ap (λ items. text_eq (normalize_lines (map line_of items)) (normalize_lines input.items))
        items
      ∙ ap (λ t. text_eq t (normalize_lines input.items)) texts
      ∙ text_eq_refl (normalize_lines input.items)

  found_again :
      (c : ℕ) (cs : Text)
      → input.idempotency_key ≡ some (c ∷ cs)
      → All (λ item. IsPrinted item.product_id) input.items
      → find_existing input db'
        ≡ ok (some (record { loaded = with_items db' order_of; replay = true }))
  unfolding find_existing replay_of
  found_again c cs own printed =
      rw own (ground (arith, found_by_key (c ∷ cs) own, same_request printed))

-- An order request with a key that placed an order is replayed when it is sent again: the same order
-- is answered and nothing is written, if the product ids are written as the database prints them and
-- the checkout met a database whose products and users have distinct ids and whose next order's id is
-- new.
pub place_again :
    (context context' : Context) (meanwhile meanwhile' : Meanwhile) (input : CheckoutInput) (c : ℕ)
    (cs : Text) (db after : Db) (placed : PlacedOrder)
    → input.idempotency_key ≡ some (c ∷ cs)
    → All (λ item. IsPrinted item.product_id) input.items
    → DistinctIds (meanwhile.first db).products
    → DistinctUsers (meanwhile.first db).users
    → IsNew (meanwhile.first db)
    → place context meanwhile input db ≡ (ok placed, after)
    → placed.replay ≡ false
    → place context' meanwhile' input after ≡ (ok (record placed { replay = true }), after)
unfolding place
place_again context context' meanwhile meanwhile' input c cs db after placed own printed products
      users new h first_time =
    elim (place-answer context meanwhile input db after placed h) [
      | inl (replayed, untouched) ↦ absurd (ground (arith, replayed.replay, first_time))
      | inr made ↦
          let db1 = meanwhile.first db in
          let p = checkout-Placed context input made.result db1 after products users made.made in
          let order = new_order db1.next_order input made.result.total context.now in
          let loaded : some (with_items after order) ≡ some placed.loaded =
            sym (found_by_id context input made.result db1 after p new) ∙ made.loaded in
          let again = found_again context input made.result db1 after p new c cs own printed in
          let same : with_items after order ≡ placed.loaded = ground arith in
          rw (again, place) (λ i. (ok (record { loaded = same i; replay = true }), after))
    ]
