-- ===== src/OrderEvents/Buffers.antt =====
-- The bounds of the buffers, and the numbering of the events in them.
use one_marketplace.Base.{
  ℕ, ◌+◌, ◌≤◌, ◌≡◌, refl, sym, subst, List, [], ◌∷◌, ◌++◌, inl, inr, arith, length, length-append,
  ltb, Bool-cases, All, All-append,
}
use one_marketplace.Base.Text.{Text, text_eq, text_eq_iff, text_eq_refl}
use one_marketplace.Entities.{OrderStatus}
use one_marketplace.OrderEvents.Service.{
  OrderStatusEvent, OrderEventsService, Buffers, buffer_size, max_orders, get, remove, last_id,
  trim, evict, next_event, publish,
}

-- The ids are consecutive, and the last one is `last`.
abbrev pub EndsAt : ℕ → List OrderStatusEvent → Type 0
EndsAt last [] = Unit
EndsAt last (event ∷ rest) = (event.id + length rest ≡ last) × EndsAt last rest

-- A buffer: of its order, of bounded length, numbered without a gap.
pub record IsBuffer (entry : Text × List OrderStatusEvent) : Type 0 where
  pub bounded : length entry.1 ≤ buffer_size
  pub numbered : EndsAt (last_id entry.1) entry.1
  pub own : All (λ event. event.order_id ≡ entry.0) entry.1

pub record IsValid (service : OrderEventsService) : Type 0 where
  pub orders : length service.buffers ≤ max_orders
  pub each : All IsBuffer service.buffers

EndsAt-last :
    (last : ℕ) (event : OrderStatusEvent) (rest : List OrderStatusEvent)
    → EndsAt last (event ∷ rest)
    → last_id (event ∷ rest) ≡ last
unfolding last_id
EndsAt-last last event [] h = omega arith
EndsAt-last last event (next ∷ rest) h = EndsAt-last last next rest h.1

EndsAt-append :
    (last : ℕ) (buffer : List OrderStatusEvent) (event : OrderStatusEvent)
    → event.id ≡ last + 1
    → EndsAt last buffer
    → EndsAt (last + 1) (buffer ++ event ∷ [])
EndsAt-append last [] event e h = (omega arith, tt)
EndsAt-append last (x ∷ buffer) event e h =
    (omega (arith, length-append buffer (event ∷ [])), EndsAt-append last buffer event e h.1)

pub last_id-append :
    (buffer : List OrderStatusEvent) (event : OrderStatusEvent)
    → last_id (buffer ++ event ∷ []) ≡ event.id
unfolding last_id
last_id-append [] event = refl
last_id-append (x ∷ []) event = refl
last_id-append (x ∷ y ∷ buffer) event = last_id-append (y ∷ buffer) event

length-remove-le :
    (order_id : Text) (buffers : Buffers) → length (remove order_id buffers) ≤ length buffers
unfolding remove
length-remove-le order_id [] = omega arith
length-remove-le order_id ((key, buffer) ∷ rest) = ground (arith, length-remove-le order_id rest)

All-remove :
    (P : (Text × List OrderStatusEvent) → Type 0) (order_id : Text) (buffers : Buffers)
    → All P buffers
    → All P (remove order_id buffers)
unfolding remove
All-remove P order_id [] h = tt
All-remove P order_id ((key, buffer) ∷ rest) h = elim (Bool-cases (text_eq key order_id)) [
  | inl e ↦ rw (e, remove) (All-remove P order_id rest h.1)
  | inr e ↦ rw (e, remove) (h.0, All-remove P order_id rest h.1)
]

All-evict :
    (P : (Text × List OrderStatusEvent) → Type 0) (buffers : Buffers)
    → All P buffers
    → All P (evict buffers)
unfolding evict
All-evict P [] h = tt
All-evict P ((key, buffer) ∷ rest) h =
    elim (Bool-cases (ltb max_orders (length ((key, buffer) ∷ rest)))) [
      | inl e ↦ rw e (All-remove P key ((key, buffer) ∷ rest) h)
      | inr e ↦ rw e h
    ]

length-evict-le :
    (buffers : Buffers) → length buffers ≤ max_orders + 1 → length (evict buffers) ≤ max_orders
unfolding evict
length-evict-le [] h = omega arith
length-evict-le ((key, buffer) ∷ rest) h =
    ground (arith, text_eq_refl key, length-remove-le key rest)

EndsAt-self : (last : ℕ) (xs : List OrderStatusEvent) → EndsAt last xs → EndsAt (last_id xs) xs
EndsAt-self last [] h = tt
EndsAt-self last (x ∷ xs) h = subst (λ k. EndsAt k (x ∷ xs)) (sym (EndsAt-last last x xs h)) h

abbrev IsOwn : Text → OrderStatusEvent → Type 0
IsOwn order_id event = event.order_id ≡ order_id

trim-IsBuffer :
    (order_id : Text) (last : ℕ) (xs : List OrderStatusEvent)
    → length xs ≤ buffer_size + 1
    → EndsAt last xs
    → All (IsOwn order_id) xs
    → IsBuffer (order_id, trim xs)
unfolding trim
trim-IsBuffer order_id last [] short e o = record { bounded = omega arith; numbered = tt; own = tt }
trim-IsBuffer order_id last (x ∷ xs) short e o =
    elim (Bool-cases (ltb buffer_size (length (x ∷ xs)))) [
      | inl long ↦
          rw long (record { bounded = omega arith; numbered = EndsAt-self last xs e.1; own = o.1 })
      | inr fits ↦
          rw fits
            (record { bounded = ground arith; numbered = EndsAt-self last (x ∷ xs) e; own = o })
    ]

pub get-IsBuffer :
    (order_id : Text) (buffers : Buffers)
    → All IsBuffer buffers
    → IsBuffer (order_id, get order_id buffers)
unfolding get last_id
get-IsBuffer order_id [] h = record { bounded = omega arith; numbered = tt; own = tt }
get-IsBuffer order_id ((key, buffer) ∷ rest) h = elim (Bool-cases (text_eq key order_id)) [
  | inl e ↦
      let same = (text_eq_iff key order_id).0 e in
      rw e (record { bounded = h.0.bounded; numbered = h.0.numbered; own = rw (← same) h.0.own })
  | inr e ↦ rw e (get-IsBuffer order_id rest h.1)
]

-- From a valid service, after whatever is published, at most max_orders orders are buffered, each
-- buffer holds at most buffer_size events, all of its order, and their ids are consecutive.
pub publish-IsValid :
    (now : ℕ) (order_id : Text) (status : OrderStatus) (service : OrderEventsService)
    → IsValid service
    → IsValid (publish now order_id status service).0
unfolding publish next_event
publish-IsValid now order_id status service v =
    let buffer = get order_id service.buffers in
    let event = next_event now order_id status service in
    let b = get-IsBuffer order_id service.buffers v.each in
    let new =
      trim-IsBuffer order_id (last_id buffer + 1) (buffer ++ event ∷ [])
        (omega (arith, length-append buffer (event ∷ []), b.bounded))
        (EndsAt-append (last_id buffer) buffer event refl b.numbered)
        (All-append (IsOwn order_id) buffer (event ∷ []) b.own (refl, tt)) in
    let others = remove order_id service.buffers in
    let entry : Text × List OrderStatusEvent = (order_id, trim (buffer ++ event ∷ [])) in
    record {
      orders = length-evict-le (others ++ entry ∷ []) (
          omega (
            arith,
            length-append others (entry ∷ []),
            length-remove-le order_id service.buffers,
            v.orders,
          ));
      each = All-evict IsBuffer (others ++ entry ∷ []) (
          All-append IsBuffer others (entry ∷ [])
            (All-remove IsBuffer order_id service.buffers v.each) (new, tt));
    }
