-- ===== src/OrderStatus/Transitions.antt =====
-- Which changes are accepted, and what they change.
use one_marketplace.Base.{
  ℕ, ◌⊎◌, leb, ◌&&◌, Outcome, Option-cases, ap, ◌∙◌, ◌≡◌, refl, Bool, true, false, Option, none,
  some, List, [], ◌∷◌, inl, inr, ok, err, arith, ◌==◌, if◌then◌else◌, Bool-cases,
}
use one_marketplace.Base.Text.{Text, number, is_id}
use one_marketplace.Base.Table.{first, count, update, update_of_count}
use one_marketplace.Base.Keyed.{
  row_at, DistinctKeys, row_at-update, guarded-first, count-guarded, count-guarded_absent,
}
use one_marketplace.Entities.{Order, OrderStatus, pending, paid, cancelled}
use one_marketplace.Checkout.Input.{int8_max}
use one_marketplace.OrderEvents.{publish}
use one_marketplace.OrderStatus.Service.{
  OrderStatusFailure, order_not_found, invalid_transition, query_failed, is_bigint, World,
  allowed_previous, in_list, moves, set_status, change,
}

abbrev pub order_at : ℕ → List Order → Option Order
order_at = row_at (λ o. o.id)

-- The order that a query for a text finds; it fails but for digits of a number within bigint.
abbrev pub find_order : Text → List Order → Outcome (Unit {0}) (Option Order)
find_order order_id orders =
    if is_id order_id && leb (number order_id) int8_max
    then ok (order_at (number order_id) orders)
    else err tt

-- Why a change is refused, by what the query for its order comes to.
abbrev pub reason : Outcome (Unit {0}) (Option Order) → OrderStatusFailure
reason (err e) = query_failed
reason (ok none) = order_not_found
reason (ok (some o)) = invalid_transition

find_order-ok :
    (order_id : Text) (orders : List Order) {found : Option Order}
    → find_order order_id orders ≡ ok found
    → (is_bigint order_id ≡ true) × (order_at (number order_id) orders ≡ found)
unfolding is_bigint
find_order-ok order_id orders h = elim (Bool-cases (is_bigint order_id)) [
  | inl e ↦ (e, ground (arith, h, e))
  | inr e ↦ absurd (ground (arith, h, e))
]

find_order-err :
    (order_id : Text) (orders : List Order) (e : Unit {0})
    → find_order order_id orders ≡ err e
    → is_bigint order_id ≡ false
unfolding is_bigint
find_order-err order_id orders e h = ground (arith, h)

-- The state machine: an order is paid, unpaid again, or cancelled for good.
infix 40 ◌⟶◌
pub data ◌⟶◌ : OrderStatus → OrderStatus → Type 0 where
  pay : pending ⟶ paid
  unpay : paid ⟶ pending
  cancel_pending : pending ⟶ cancelled
  cancel_paid : paid ⟶ cancelled

in_list-⟶ : (s t : OrderStatus) → in_list s (allowed_previous t) ≡ true → s ⟶ t
unfolding allowed_previous in_list
in_list-⟶ paid pending h = unpay
in_list-⟶ pending paid h = pay
in_list-⟶ pending cancelled h = cancel_pending
in_list-⟶ paid cancelled h = cancel_paid
in_list-⟶ _ _ h = absurd (ground arith)

⟶-in_list : {s t : OrderStatus} → s ⟶ t → in_list s (allowed_previous t) ≡ true
unfolding allowed_previous in_list
⟶-in_list pay = refl
⟶-in_list unpay = refl
⟶-in_list cancel_pending = refl
⟶-in_list cancel_paid = refl

abbrev one_if : Bool → ℕ
one_if b = if b then 1 else 0

module _ (has_refresher : Bool) (now : ℕ) (order_id : Text) (status : OrderStatus) (w : World) where
  abbrev after : World
  after = (change has_refresher now order_id status w).1

  abbrev accepts : Order → Bool
  accepts o = in_list o.status (allowed_previous status)

  -- From distinct ids, a change of an order that its query finds, along the state machine, succeeds: it
  -- sets the status of that order,
  -- touches no other order, and publishes one event.
  pub change_moves :
      (o : Order)
      → DistinctKeys (λ o. o.id) w.db.orders
      → find_order order_id w.db.orders ≡ ok (some o)
      → o.status ⟶ status
      → ((change has_refresher now order_id status w).0
          ≡ ok (publish now order_id status w.events).1)
        × (after.events ≡ (publish now order_id status w.events).0)
        × ((j : ℕ)
            → order_at j after.db.orders ≡ (
                if j == number order_id
                then some (set_status status o)
                else order_at j w.db.orders))
  unfolding change
  change_moves o d found m =
      let id = number order_id in
      let (valid, h) = find_order-ok order_id w.db.orders found in
      let ok_move = ⟶-in_list m in
      let one = count-guarded (λ o. o.id) id accepts w.db.orders o d h in
      let hit = guarded-first (λ o. o.id) id accepts w.db.orders o h ok_move in
      (
        ground (arith, valid, one, ok_move),
        ground (arith, valid, one, ok_move),
        λ j. ground (
          arith,
          valid,
          one,
          ok_move,
          row_at-update (λ (o : Order). o.id) accepts (set_status status) (λ o. refl) id j
              w.db.orders o d hit,
        ),
      )

  -- A query that changes no row, and the row that is then looked up.
  change-unmoved :
      (found : Option Order)
      → is_bigint order_id ≡ true
      → order_at (number order_id) w.db.orders ≡ found
      → count (moves (number order_id) status) w.db.orders ≡ 0
      → (after ≡ w) × ((change has_refresher now order_id status w).0 ≡ err (reason (ok found)))
  unfolding change
  change-unmoved found valid h no_row =
      let id = number order_id in
      let same = update_of_count (moves id status) (set_status status) w.db.orders no_row in
      elim (Option-cases found) [
        | inl none_found ↦ (
          ground (arith, valid, no_row, same),
          ground (arith, valid, no_row, same, h, none_found),
        )
        | inr (o, some_found) ↦ (
          ground (arith, valid, no_row, same),
          ground (arith, valid, no_row, same, h, some_found),
        )
      ]

  change-failed :
      is_bigint order_id ≡ false
      → (after ≡ w) × ((change has_refresher now order_id status w).0 ≡ err query_failed)
  unfolding change
  change-failed invalid = (ground (arith, invalid), ground (arith, invalid))

  -- From distinct ids, any other change is refused with the reason, and leaves the orders and the
  -- events as they were: its query fails unless the order's id is of digits and within bigint, or
  -- finds no order, or the order's status does not lead to the new one.
  pub change_refused :
      (found : Outcome (Unit {0}) (Option Order))
      → DistinctKeys (λ o. o.id) w.db.orders
      → find_order order_id w.db.orders ≡ found
      → ((o : Order) → found ≡ ok (some o) → ¬ (o.status ⟶ status))
      → (after ≡ w) × ((change has_refresher now order_id status w).0 ≡ err (reason found))
  change_refused (err e) d h no_move = change-failed (find_order-err order_id w.db.orders e h)
  change_refused (ok none) d h no_move =
      let (valid, absent) = find_order-ok order_id w.db.orders h in
      change-unmoved none valid absent
        (count-guarded_absent (λ (o : Order). o.id) (number order_id) accepts w.db.orders absent)
  change_refused (ok (some o)) d h no_move =
      let (valid, present) = find_order-ok order_id w.db.orders h in
      let refused : accepts o ≡ false = elim (Bool-cases (accepts o)) [
        | inl e ↦ absurd (no_move o refl (in_list-⟶ o.status status e))
        | inr e ↦ e
      ] in
      change-unmoved (some o) valid present (
        count-guarded (λ (o : Order). o.id) (number order_id) accepts w.db.orders o d present
        ∙ ap one_if refused)

cancelled_final : (status : OrderStatus) → in_list cancelled (allowed_previous status) ≡ false
unfolding allowed_previous in_list
cancelled_final pending = refl
cancelled_final _ = refl

cancelled-update :
    (id n : ℕ) (status : OrderStatus) (os : List Order) (o : Order)
    → order_at id os ≡ some o
    → o.status ≡ cancelled
    → order_at id (update (moves n status) (set_status status) os) ≡ some o
unfolding first update
cancelled-update id n status [] o h c = absurd (ground arith)
cancelled-update id n status (x ∷ os) o h c =
    ground (arith, cancelled-update id n status os o, cancelled_final status)

-- A request to change a status, with its time.
pub record Change : Type 0 where
  pub has_refresher : Bool
  pub now : ℕ
  pub order_id : Text
  pub status : OrderStatus

pub change_all : List Change → World → World
change_all [] w = w
change_all (c ∷ changes) w =
    change_all changes (change c.has_refresher c.now c.order_id c.status w).1

change-orders :
    (c : Change) (w : World)
    → ((change c.has_refresher c.now c.order_id c.status w).1 ≡ w)
      ⊎ ((change c.has_refresher c.now c.order_id c.status w).1.db.orders
          ≡ update (moves (number c.order_id) c.status) (set_status c.status) w.db.orders)
unfolding change
change-orders c w = elim (Bool-cases (is_bigint c.order_id)) [
  | inl valid ↦ inr (ground (arith, valid))
  | inr invalid ↦ inl (ground (arith, invalid))
]

change-cancelled :
    (id : ℕ) (c : Change) (w : World) (o : Order)
    → order_at id w.db.orders ≡ some o
    → o.status ≡ cancelled
    → order_at id (change c.has_refresher c.now c.order_id c.status w).1.db.orders ≡ some o
change-cancelled id c w o h final = elim (change-orders c w) [
  | inl same ↦ ap (λ (v : World). order_at id v.db.orders) same ∙ h
  | inr updated ↦
      ap (order_at id) updated
      ∙ cancelled-update id (number c.order_id) c.status w.db.orders o h final
]

-- A cancelled order stays as it is, whatever changes are asked for.
pub change_all-cancelled :
    (id : ℕ) (changes : List Change) (w : World) (o : Order)
    → order_at id w.db.orders ≡ some o
    → o.status ≡ cancelled
    → order_at id (change_all changes w).db.orders ≡ some o
unfolding change_all
change_all-cancelled id [] w o h c = h
change_all-cancelled id (x ∷ changes) w o h c =
    change_all-cancelled id changes (change x.has_refresher x.now x.order_id x.status w).1 o
      (change-cancelled id x w o h c) c
