-- ===== src/Checkout/Unique.antt =====
-- The idempotency keys of the orders that services/checkout.service.ts writes.
use one_marketplace.Base.{
  ℕ, ◌≤◌, ◌≡◌, refl, sym, ap, subst, Bool, true, false, ◌&&◌, Option, none, some, inl, inr, List,
  [], ◌∷◌, ◌++◌, arith, ◌==◌, ==_iff, Option-cases, Outcome-cases,
}
use one_marketplace.Base.Text.{Text, text_eq_iff}
use one_marketplace.Base.Table.{exists, count, count-append}
use one_marketplace.Entities.{Db, Order}
use one_marketplace.Checkout.Input.{CheckoutInput, Context}
use one_marketplace.Checkout.Body.{same_key, conflict, new_order, checkout}
use one_marketplace.Checkout.Rows.{DistinctIds, DistinctUsers}
use one_marketplace.Checkout.Placed.{checkout-Placed}
use one_marketplace.Checkout.Failed.{checkout_unchanged}

abbrev has_key : ℕ → Text → Order → Bool
has_key user_id key o = o.user_id == user_id && same_key o.idempotency_key (some key)

-- A buyer has at most one order with a key.
abbrev pub IsUnique : List Order → Type 0
IsUnique orders = (user_id : ℕ) (key : Text) → count (has_key user_id key) orders ≤ 1

count-absent :
    (p : Order → Bool) (orders : List Order) → exists p orders ≡ false → count p orders ≡ 0
unfolding exists count
count-absent p [] e = refl
count-absent p (o ∷ orders) e = ground (arith, count-absent p orders)

has_key-fields :
    (user_id : ℕ) (key : Text) (o : Order)
    → has_key user_id key o ≡ true
    → (o.user_id ≡ user_id) × (o.idempotency_key ≡ some key)
has_key-fields user_id key o h = elim (Option-cases o.idempotency_key) [
  | inl e ↦ absurd (ground arith)
  | inr (own, e) ↦ ground (arith, ==_iff o.user_id user_id, text_eq_iff own key)
]

-- A new order that conflicts with none is the first with its user and its key.
fresh-count :
    (order : Order) (orders : List Order) (user_id : ℕ) (key : Text)
    → conflict order orders ≡ none
    → has_key user_id key order ≡ true
    → count (has_key user_id key) orders ≡ 0
unfolding conflict
fresh-count order orders user_id key fresh h =
    let (user, own) = has_key-fields user_id key order h in
    let test = λ (u : ℕ) (k : Option Text).
      exists (λ (o : Order). o.user_id == u && same_key o.idempotency_key k) orders ≡ false in
    let absent : test order.user_id order.idempotency_key = ground arith in
    count-absent (has_key user_id key) orders
      (subst (λ k. test user_id k) own (subst (λ u. test u order.idempotency_key) user absent))

append-IsUnique :
    (order : Order) (orders : List Order)
    → conflict order orders ≡ none
    → IsUnique orders
    → IsUnique (orders ++ (order ∷ []))
unfolding count
append-IsUnique order orders fresh unique user_id key = ground (
  arith,
  count-append (has_key user_id key) orders (order ∷ []),
  unique user_id key,
  fresh-count order orders user_id key fresh,
)

-- On a database whose products and users have distinct ids, a checkout keeps it so that a buyer has
-- at most one order with an idempotency key, whether it returns or throws.
pub checkout-IsUnique :
    (context : Context) (input : CheckoutInput) (db : Db)
    → DistinctIds db.products
    → DistinctUsers db.users
    → IsUnique db.orders
    → IsUnique (checkout context input db).1.orders
checkout-IsUnique context input db products users unique =
    let after = (checkout context input db).1 in
    elim (Outcome-cases (checkout context input db).0) [
      | inr (e, failed) ↦
          subst (λ (x : Db). IsUnique x.orders)
            (sym (checkout_unchanged context input db after e (ap (λ o. (o, after)) failed))) unique
      | inl (r, done) ↦
          let placed =
            checkout-Placed context input r db after products users (ap (λ o. (o, after)) done) in
          subst IsUnique (sym (ap (λ (x : Db). x.orders) placed.written)) (
            append-IsUnique (new_order db.next_order input r.total context.now) db.orders
              placed.fresh unique)
    ]
