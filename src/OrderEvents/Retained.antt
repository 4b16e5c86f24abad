-- ===== src/OrderEvents/Retained.antt =====
-- Whose buffer is retained when orders are published (services/order-events.service.ts).
use one_marketplace.Base.{
  ℕ, ◌+◌, ◌≤◌, ◌<◌, ◌≡◌, refl, ◌∙◌, false, List, [], ◌∷◌, ◌++◌, inl, inr, arith, length,
  length-append, ltb, Bool-cases, if◌then◌else◌,
}
use one_marketplace.Base.Text.{Text, text_eq, text_eq_iff, text_eq_refl}
use one_marketplace.Entities.{OrderStatus}
use one_marketplace.OrderEvents.Service.{
  OrderStatusEvent, OrderEventsService, Buffers, max_orders, get, remove, trim, evict, next_event,
  publish,
}

get-append_removed :
    (order_id : Text) (buffers : Buffers) (buffer : List OrderStatusEvent)
    → get order_id (remove order_id buffers ++ (order_id, buffer) ∷ []) ≡ buffer
unfolding get remove
get-append_removed order_id [] buffer = ground (arith, text_eq_refl order_id)
get-append_removed order_id ((key, old) ∷ rest) buffer =
    ground (arith, get-append_removed order_id rest buffer)

get-remove_ne :
    (key order_id : Text) (buffers : Buffers)
    → text_eq key order_id ≡ false
    → get order_id (remove key buffers) ≡ get order_id buffers
unfolding get remove
get-remove_ne key order_id [] h = refl
get-remove_ne key order_id ((other, buffer) ∷ rest) h = ground (
  arith,
  get-remove_ne key order_id rest,
  text_eq_iff other key,
  text_eq_iff other order_id,
  text_eq_iff key order_id,
)

abbrev HeadDiffers : Text → Buffers → Type 0
HeadDiffers order_id [] = Unit
HeadDiffers order_id ((key, buffer) ∷ rest) = text_eq key order_id ≡ false

remove-HeadDiffers :
    (order_id : Text) (buffers : Buffers) → HeadDiffers order_id (remove order_id buffers)
unfolding remove
remove-HeadDiffers order_id [] = tt
remove-HeadDiffers order_id ((key, buffer) ∷ rest) = elim (Bool-cases (text_eq key order_id)) [
  | inl e ↦ rw (e, remove) (remove-HeadDiffers order_id rest)
  | inr e ↦ rw (e, remove) e
]

-- The order that is published last is not the one that is evicted.
get-evict :
    (order_id : Text) (others : Buffers) (buffer : List OrderStatusEvent)
    → HeadDiffers order_id others
    → get order_id (evict (others ++ (order_id, buffer) ∷ []))
      ≡ get order_id (others ++ (order_id, buffer) ∷ [])
unfolding evict
get-evict order_id [] buffer h = refl
get-evict order_id ((key, old) ∷ rest) buffer h =
    elim (Bool-cases (ltb max_orders (length (((key, old) ∷ rest) ++ (order_id, buffer) ∷ [])))) [
      | inl long ↦
          rw long (get-remove_ne key order_id (((key, old) ∷ rest) ++ (order_id, buffer) ∷ []) h)
      | inr fits ↦ rw fits
    ]

pub get-publish :
    (now : ℕ) (order_id : Text) (status : OrderStatus) (service : OrderEventsService)
    → get order_id (publish now order_id status service).0.buffers
      ≡ trim (get order_id service.buffers ++ next_event now order_id status service ∷ [])
unfolding publish
get-publish now order_id status service =
    get-evict order_id (remove order_id service.buffers)
      (trim (get order_id service.buffers ++ next_event now order_id status service ∷ []))
      (remove-HeadDiffers order_id service.buffers)
    ∙ get-append_removed order_id service.buffers
        (trim (get order_id service.buffers ++ next_event now order_id status service ∷ []))

-- How many orders were published after the order's last event.
unfoldable pub behind : Text → Buffers → ℕ
behind order_id [] = 0
behind order_id ((key, buffer) ∷ rest) =
    let further = behind order_id rest in if text_eq key order_id then length rest else further

length-remove : (key : Text) (buffers : Buffers) → length (remove key buffers) ≤ length buffers
unfolding remove
length-remove key [] = omega arith
length-remove key ((other, buffer) ∷ rest) = ground (arith, length-remove key rest)

behind-remove :
    (key order_id : Text) (buffers : Buffers)
    → text_eq key order_id ≡ false
    → behind order_id (remove key buffers) ≤ behind order_id buffers
unfolding behind remove
behind-remove key order_id [] h = omega arith
behind-remove key order_id ((other, buffer) ∷ rest) h = ground (
  arith,
  behind-remove key order_id rest h,
  length-remove key rest,
  text_eq_iff other key,
  text_eq_iff other order_id,
  text_eq_iff key order_id,
)

behind-append :
    (key order_id : Text) (buffers : Buffers) (buffer : List OrderStatusEvent)
    → behind order_id (buffers ++ (key, buffer) ∷ []) ≤ behind order_id buffers + 1
unfolding behind
behind-append key order_id [] buffer = ground arith
behind-append key order_id ((other, old) ∷ rest) buffer =
    ground (arith, behind-append key order_id rest buffer, length-append rest ((key, buffer) ∷ []))

get-append_other :
    (key order_id : Text) (buffers : Buffers) (buffer : List OrderStatusEvent)
    → text_eq key order_id ≡ false
    → get order_id (buffers ++ (key, buffer) ∷ []) ≡ get order_id buffers
unfolding get
get-append_other key order_id [] buffer h = ground (arith, h)
get-append_other key order_id ((other, old) ∷ rest) buffer h =
    ground (arith, get-append_other key order_id rest buffer h)

-- An eviction leaves an order that has fewer than max_orders behind it.
get-evict_other :
    (order_id : Text) (buffers : Buffers)
    → behind order_id buffers < max_orders
    → (get order_id (evict buffers) ≡ get order_id buffers)
      × (behind order_id (evict buffers) ≤ behind order_id buffers)
unfolding evict behind
get-evict_other order_id [] h = (refl, omega arith)
get-evict_other order_id ((key, old) ∷ rest) h =
    elim (Bool-cases (ltb max_orders (length ((key, old) ∷ rest)))) [
      | inr fits ↦ rw fits (refl, omega arith)
      | inl long ↦
          let other : text_eq key order_id ≡ false = elim (Bool-cases (text_eq key order_id)) [
            | inl own ↦ absurd (ground (arith, own, long, h))
            | inr e ↦ e
          ] in
          rw long (
            get-remove_ne key order_id ((key, old) ∷ rest) other,
            behind-remove key order_id ((key, old) ∷ rest) other,
          )
    ]

-- A publish for another order.
pub get-publish_other :
    (now : ℕ) (key order_id : Text) (status : OrderStatus) (service : OrderEventsService)
    → text_eq key order_id ≡ false
    → behind order_id service.buffers + 1 < max_orders
    → (get order_id (publish now key status service).0.buffers ≡ get order_id service.buffers)
      × (behind order_id (publish now key status service).0.buffers
          ≤ behind order_id service.buffers + 1)
unfolding publish
get-publish_other now key order_id status service other room =
    let buffer = trim (get key service.buffers ++ next_event now key status service ∷ []) in
    let removed = remove key service.buffers in
    let fewer = behind-remove key order_id service.buffers other in
    let more = behind-append key order_id removed buffer in
    let (same, less) =
      get-evict_other order_id (removed ++ (key, buffer) ∷ []) (omega (arith, fewer, more, room)) in
    (
      same
          ∙ get-append_other key order_id removed buffer other
          ∙ get-remove_ne key order_id service.buffers other,
      omega (arith, fewer, more, less),
    )

behind-append_removed :
    (order_id : Text) (buffers : Buffers) (buffer : List OrderStatusEvent)
    → behind order_id (remove order_id buffers ++ (order_id, buffer) ∷ []) ≡ 0
unfolding behind remove
behind-append_removed order_id [] buffer = ground (arith, text_eq_refl order_id)
behind-append_removed order_id ((key, old) ∷ rest) buffer =
    ground (arith, behind-append_removed order_id rest buffer)

-- A publish for the order.
pub behind-publish :
    (now : ℕ) (order_id : Text) (status : OrderStatus) (service : OrderEventsService)
    → behind order_id (publish now order_id status service).0.buffers ≡ 0
unfolding publish
behind-publish now order_id status service =
    let buffer =
      trim (get order_id service.buffers ++ next_event now order_id status service ∷ []) in
    let none_behind = behind-append_removed order_id service.buffers buffer in
    omega (
      arith,
      none_behind,
      (get-evict_other order_id (remove order_id service.buffers ++ (order_id, buffer) ∷ [])
          (omega (arith, none_behind))).1,
    )
