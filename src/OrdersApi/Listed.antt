-- ===== src/OrdersApi/Listed.antt =====
-- Which orders a listing shows (controllers/orders.controller.ts), and in which order.
use one_marketplace.Base.{
  ℕ, zero, suc, ◌≤◌, ◌≡◌, refl, ap, ◌∙◌, Option, inl, inr, List, [], ◌∷◌, map, arith, length, leb,
  leb→le, ◌==◌, ==_iff, All, Bool-cases, if◌then◌else◌,
}
use one_marketplace.Base.Text.{Text}
use one_marketplace.Base.Table.{select, count, length-select}
use one_marketplace.Entities.{Db, Order}
use one_marketplace.PlaceOrder.{with_items}
use one_marketplace.OrdersApi.Controller.{OrderResponse, to_order_response}
use one_marketplace.OrdersApi.Listing.{
  insert_order, newest_first, take, orders_of, list_by_user, limit_of, list_orders,
}

-- No later order is newer.
abbrev pub NoNewer : ℕ → List OrderResponse → Type 0
NoNewer time [] = Unit
NoNewer time (r ∷ rs) = (r.created_at ≤ time) × NoNewer time rs

abbrev pub IsNewestFirst : List OrderResponse → Type 0
IsNewestFirst [] = Unit
IsNewestFirst (r ∷ rs) = NoNewer r.created_at rs × IsNewestFirst rs

-- The same of orders.
abbrev OrdersNoNewer : ℕ → List Order → Type 0
OrdersNoNewer time [] = Unit
OrdersNoNewer time (o ∷ os) = (o.created_at ≤ time) × OrdersNoNewer time os

abbrev OrdersNewestFirst : List Order → Type 0
OrdersNewestFirst [] = Unit
OrdersNewestFirst (o ∷ os) = OrdersNoNewer o.created_at os × OrdersNewestFirst os

NoNewer-later :
    (time later : ℕ) (os : List Order)
    → time ≤ later
    → OrdersNoNewer time os
    → OrdersNoNewer later os
NoNewer-later time later [] h n = tt
NoNewer-later time later (o ∷ os) h n = (omega (arith, h, n.0), NoNewer-later time later os h n.1)

insert_order-NoNewer :
    (time : ℕ) (o : Order) (os : List Order)
    → o.created_at ≤ time
    → OrdersNoNewer time os
    → OrdersNoNewer time (insert_order o os)
unfolding insert_order
insert_order-NoNewer time o [] h n = (h, tt)
insert_order-NoNewer time o (p ∷ ps) h n = elim (Bool-cases (leb p.created_at o.created_at)) [
  | inl e ↦ rw e (h, n)
  | inr e ↦ rw e (n.0, insert_order-NoNewer time o ps h n.1)
]

insert_order-NewestFirst :
    (o : Order) (os : List Order) → OrdersNewestFirst os → OrdersNewestFirst (insert_order o os)
unfolding insert_order
insert_order-NewestFirst o [] s = (tt, tt)
insert_order-NewestFirst o (p ∷ ps) s = elim (Bool-cases (leb p.created_at o.created_at)) [
  | inl e ↦
      let le = leb→le p.created_at o.created_at e in
      rw e ((le, NoNewer-later p.created_at o.created_at ps le s.0), s)
  | inr e ↦
      let le : o.created_at ≤ p.created_at = ground (arith, e) in
      rw e (insert_order-NoNewer p.created_at o ps le s.0, insert_order-NewestFirst o ps s.1)
]

newest_first-Sorted : (os : List Order) → OrdersNewestFirst (newest_first os)
unfolding newest_first
newest_first-Sorted [] = tt
newest_first-Sorted (o ∷ os) = insert_order-NewestFirst o (newest_first os) (newest_first-Sorted os)

module _ (P : Order → Type 0) where
  insert_order-All : (o : Order) (os : List Order) → P o → All P os → All P (insert_order o os)
  unfolding insert_order
  insert_order-All o [] h hs = (h, tt)
  insert_order-All o (p ∷ ps) h hs = elim (Bool-cases (leb p.created_at o.created_at)) [
    | inl e ↦ rw e (h, hs)
    | inr e ↦ rw e (hs.0, insert_order-All o ps h hs.1)
  ]

  newest_first-All : (os : List Order) → All P os → All P (newest_first os)
  unfolding newest_first
  newest_first-All [] h = tt
  newest_first-All (o ∷ os) h = insert_order-All o (newest_first os) h.0 (newest_first-All os h.1)

  take-All : (n : ℕ) (os : List Order) → All P os → All P (take n os)
  unfolding take
  take-All zero os h = tt
  take-All (suc n) [] h = tt
  take-All (suc n) (o ∷ os) h = (h.0, take-All n os h.1)

length-insert_order : (o : Order) (os : List Order) → length (insert_order o os) ≡ suc (length os)
unfolding insert_order
length-insert_order o [] = refl
length-insert_order o (p ∷ ps) = ground (arith, length-insert_order o ps)

length-newest_first : (os : List Order) → length (newest_first os) ≡ length os
unfolding newest_first
length-newest_first [] = refl
length-newest_first (o ∷ os) =
    length-insert_order o (newest_first os) ∙ ap suc (length-newest_first os)

length-take :
    {A : Type 0} (n : ℕ) (xs : List A)
    → length (take n xs) ≡ (if leb n (length xs) then n else length xs)
unfolding take
length-take zero xs = ground arith
length-take (suc n) [] = ground arith
length-take (suc n) (x ∷ xs) = ground (arith, length-take n xs)

take-NoNewer :
    (n time : ℕ) (os : List Order) → OrdersNoNewer time os → OrdersNoNewer time (take n os)
unfolding take
take-NoNewer zero time os h = tt
take-NoNewer (suc n) time [] h = tt
take-NoNewer (suc n) time (o ∷ os) h = (h.0, take-NoNewer n time os h.1)

take-NewestFirst : (n : ℕ) (os : List Order) → OrdersNewestFirst os → OrdersNewestFirst (take n os)
unfolding take
take-NewestFirst zero os s = tt
take-NewestFirst (suc n) [] s = tt
take-NewestFirst (suc n) (o ∷ os) s =
    (take-NoNewer n o.created_at os s.0, take-NewestFirst n os s.1)

select-own :
    (user_id : ℕ) (os : List Order)
    → All (λ (o : Order). o.user_id ≡ user_id) (select (λ (o : Order). o.user_id == user_id) os)
unfolding select
select-own user_id [] = tt
select-own user_id (o ∷ os) = elim (Bool-cases (o.user_id == user_id)) [
  | inl e ↦ rw e ((==_iff o.user_id user_id).0 e, select-own user_id os)
  | inr e ↦ rw e (select-own user_id os)
]

module _ (db : Db) where
  abbrev responses : List Order → List OrderResponse
  responses os = map to_order_response (map (with_items db) os)

  responses-NoNewer :
      (time : ℕ) (os : List Order) → OrdersNoNewer time os → NoNewer time (responses os)
  unfolding to_order_response with_items
  responses-NoNewer time [] h = tt
  responses-NoNewer time (o ∷ os) h = (h.0, responses-NoNewer time os h.1)

  responses-NewestFirst : (os : List Order) → OrdersNewestFirst os → IsNewestFirst (responses os)
  unfolding to_order_response with_items
  responses-NewestFirst [] s = tt
  responses-NewestFirst (o ∷ os) s =
      (responses-NoNewer o.created_at os s.0, responses-NewestFirst os s.1)

  responses-own :
      (user_id : ℕ) (os : List Order)
      → All (λ (o : Order). o.user_id ≡ user_id) os
      → All (λ (r : OrderResponse). r.user_id ≡ user_id) (responses os)
  unfolding to_order_response with_items
  responses-own user_id [] h = tt
  responses-own user_id (o ∷ os) h = (h.0, responses-own user_id os h.1)

  length-responses : (os : List Order) → length (responses os) ≡ length os
  length-responses [] = refl
  length-responses (o ∷ os) = ap suc (length-responses os)

-- A listing has orders of the user's own alone, the newest first, and as many as the limit, or all
-- that the user has if they are fewer.
pub list_orders-own :
    (user_id : ℕ) (limit : Option Text) (db : Db)
    → let n = count (λ (o : Order). o.user_id == user_id) db.orders in
      let listed = list_orders user_id limit db in
      All (λ (r : OrderResponse). r.user_id ≡ user_id) listed
      × IsNewestFirst listed
      × (length listed ≡ (if leb (limit_of limit) n then limit_of limit else n))
unfolding list_orders list_by_user orders_of
list_orders-own user_id limit db =
    let own = select (λ (o : Order). o.user_id == user_id) db.orders in
    let sorted = newest_first own in
    let size =
      length-newest_first own ∙ length-select (λ (o : Order). o.user_id == user_id) db.orders in
    (
      responses-own db user_id (take (limit_of limit) sorted) (
          take-All _ (limit_of limit) sorted
            (newest_first-All _ own (select-own user_id db.orders))),
      responses-NewestFirst db (take (limit_of limit) sorted)
          (take-NewestFirst (limit_of limit) sorted (newest_first-Sorted own)),
      length-responses db (take (limit_of limit) sorted)
          ∙ length-take (limit_of limit) sorted
          ∙ ap (λ n. if leb (limit_of limit) n then limit_of limit else n) size,
    )
