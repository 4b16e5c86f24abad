-- ===== src/OrdersApi/Owners.antt =====
-- Whose orders the endpoints of controllers/orders.controller.ts show.
use one_marketplace.Base.{
  ℕ, ◌≡◌, sym, ap, ◌∙◌, true, Option, none, some, inl, inr, List, [], ok, arith, ltb, ◌==◌, ==_iff,
  Bool-cases, Option-cases, Outcome-cases,
}
use one_marketplace.Base.Text.{Text, is_id, number}
use one_marketplace.Base.Table.{first}
use one_marketplace.Entities.{Db, Order}
use one_marketplace.Checkout.Input.{int8_max}
use one_marketplace.OrderEvents.{OrderStatusEvent, missed_since}
use one_marketplace.OrderStatus.{World}
use one_marketplace.PlaceOrder.{LoadedOrder, with_items, load_first, find_by_id, find_owner_id}
use one_marketplace.OrdersApi.Controller.{
  OrderResponse, to_order_response, load, get_by_id, to_last_event_id, opening, stream_events,
}

-- The row of an order that belongs to the user.
pub record IsOwn (user_id : ℕ) (id : Text) (db : Db) (order : Order) : Type 0 where
  pub well_formed : is_id id ≡ true
  pub found : first (λ o. o.id == number id) db.orders ≡ some order
  pub own : order.user_id ≡ user_id

load-found :
    (id : Text) (db : Db) (loaded : LoadedOrder)
    → load id db ≡ ok loaded
    → (is_id id ≡ true) × (first (λ o. o.id == number id) db.orders ≡ some loaded.order)
unfolding load find_by_id load_first with_items
load-found id db loaded h = elim (Bool-cases (is_id id)) [
  | inr e ↦ absurd (ground arith)
  | inl e ↦ elim (Bool-cases (ltb int8_max (number id))) [
    | inl f ↦ absurd (ground arith)
    | inr f ↦ elim (Option-cases (first (λ o. o.id == number id) db.orders)) [
      | inl g ↦ absurd (ground arith)
      | inr (order, g) ↦
          let same : with_items db order ≡ loaded = ground arith in
          (e, g ∙ ap (λ (l : LoadedOrder). some l.order) same)
    ]
  ]
]

-- An order is shown to its buyer alone: an answer without an error is of the order that the path
-- names, and of the user's own.
get_by_id-IsOwn :
    (user_id : ℕ) (id : Text) (db : Db) (response : OrderResponse)
    → get_by_id user_id id db ≡ ok response
    → (loaded : LoadedOrder) × IsOwn user_id id db loaded.order
      × (response ≡ to_order_response loaded)
unfolding get_by_id
get_by_id-IsOwn user_id id db response h = elim (Outcome-cases (load id db)) [
  | inr (e, failed) ↦ absurd (ground arith)
  | inl (loaded, e) ↦ elim (Bool-cases (loaded.order.user_id == user_id)) [
    | inr f ↦ absurd (ground arith)
    | inl f ↦
        let (well_formed, found) = load-found id db loaded e in
        (
          loaded,
          record {
            well_formed = well_formed;
            found = found;
            own = ground (arith, ==_iff loaded.order.user_id user_id, f);
          },
          ground arith,
        )
  ]
]

opened :
    (id : Text) (last_event_id : Option Text) (w : World) (events : List OrderStatusEvent)
    → opening id (to_last_event_id last_event_id) w.events ≡ events
    → events ≡ elim (to_last_event_id last_event_id) [
      | none ↦ []
      | some last_seen ↦ missed_since id last_seen w.events
    ]
unfolding opening
opened id last_event_id w events h = elim (Option-cases (to_last_event_id last_event_id)) [
  | inl e ↦ rw e (sym (rw e at h))
  | inr (last_seen, e) ↦ rw e (sym (rw e at h))
]

-- A stream of an order's events is opened to its buyer alone, and begins with the events that the
-- client missed, if it says which it saw last.
pub stream_events-IsOwn :
    (user_id : ℕ) (id : Text) (last_event_id : Option Text) (w : World)
    (events : List OrderStatusEvent)
    → stream_events user_id id last_event_id w ≡ ok events
    → (order : Order) × IsOwn user_id id w.db order
      × (events ≡ elim (to_last_event_id last_event_id) [
        | none ↦ []
        | some last_seen ↦ missed_since id last_seen w.events
      ])
unfolding stream_events find_owner_id
stream_events-IsOwn user_id id last_event_id w events h = elim (Bool-cases (is_id id)) [
  | inr e ↦ absurd (ground arith)
  | inl e ↦ elim (Bool-cases (ltb int8_max (number id))) [
    | inl f ↦ absurd (ground arith)
    | inr f ↦ elim (Option-cases (first (λ o. o.id == number id) w.db.orders)) [
      | inl g ↦ absurd (ground arith)
      | inr (order, g) ↦ elim (Bool-cases (order.user_id == user_id)) [
        | inr k ↦ absurd (ground arith)
        | inl k ↦ (
          order,
          record {
            well_formed = e;
            found = g;
            own = ground (arith, ==_iff order.user_id user_id, k);
          },
          opened id last_event_id w events (ground arith),
        )
      ]
    ]
  ]
]
