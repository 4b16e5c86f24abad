-- ===== src/OrderEvents/Replay.antt =====
-- What a client that reconnects with the last id that it saw is sent.
use one_marketplace.Base.{
  ℕ, ◌+◌, ◌≤◌, ◌<◌, ◌≡◌, refl, sym, ap, subst, ◌∙◌, List, [], ◌∷◌, ◌++◌, inl, inr, arith, length,
  length-append, ltb, not, if◌then◌else◌, Bool-cases, All, All-append,
}
use one_marketplace.Base.Text.{Text, text_eq, text_eq_iff}
use one_marketplace.Base.Table.{select, count}
use one_marketplace.Entities.{OrderStatus}
use one_marketplace.OrderEvents.Service.{
  OrderStatusEvent, OrderEventsService, buffer_size, max_orders, get, last_id, trim, next_event,
  publish, missed_since,
}
use one_marketplace.OrderEvents.Retained.{behind, get-publish, get-publish_other, behind-publish}
use one_marketplace.OrderEvents.Buffers.{IsValid, EndsAt, get-IsBuffer, last_id-append}
use mathlib.Core.List.{append_assoc, append-nil}

-- A change of an order, with its time.
pub record Change : Type 0 where
  pub order_id : Text
  pub now : ℕ
  pub status : OrderStatus

-- Changes, and the events of one order that they publish.
pub publish_all : List Change → OrderEventsService → OrderEventsService
publish_all [] service = service
publish_all (c ∷ changes) service =
    publish_all changes (publish c.now c.order_id c.status service).0

pub published : Text → List Change → OrderEventsService → List OrderStatusEvent
published order_id [] service = []
published order_id (c ∷ changes) service =
    let (after, event) = publish c.now c.order_id c.status service in
    let rest = published order_id changes after in
    if text_eq c.order_id order_id then event ∷ rest else rest

-- The changes of the order, and those of others.
abbrev pub own_changes : Text → List Change → ℕ
own_changes order_id changes = count (λ (c : Change). text_eq c.order_id order_id) changes

abbrev pub other_changes : Text → List Change → ℕ
other_changes order_id changes = count (λ (c : Change). not (text_eq c.order_id order_id)) changes

-- A buffer with the events after the id `seen`, and what stands before them.
record After (seen : ℕ) (buffer fresh : List OrderStatusEvent) : Type 0 where
  old : List OrderStatusEvent
  parts : buffer ≡ old ++ fresh
  olds : All (λ event. event.id ≤ seen) old
  news : All (λ event. seen < event.id) fresh
  reached : seen ≤ last_id buffer

select-news :
    (seen : ℕ) (fresh : List OrderStatusEvent)
    → All (λ event. seen < event.id) fresh
    → select (λ event. ltb seen event.id) fresh ≡ fresh
unfolding select
select-news seen [] h = refl
select-news seen (event ∷ fresh) h = ground (arith, select-news seen fresh)

select-After :
    (seen : ℕ) (old fresh : List OrderStatusEvent)
    → All (λ event. event.id ≤ seen) old
    → All (λ event. seen < event.id) fresh
    → select (λ event. ltb seen event.id) (old ++ fresh) ≡ fresh
unfolding select
select-After seen [] fresh o n = select-news seen fresh n
select-After seen (event ∷ old) fresh o n = ground (arith, select-After seen old fresh)

trim-parts :
    (seen : ℕ) (old fresh : List OrderStatusEvent)
    → All (λ event. event.id ≤ seen) old
    → length fresh ≤ buffer_size
    → (kept : List OrderStatusEvent) × (trim (old ++ fresh) ≡ kept ++ fresh)
      × All (λ event. event.id ≤ seen) kept
unfolding trim
trim-parts seen [] [] o h = ([], refl, tt)
trim-parts seen [] (event ∷ fresh) o h = ([], ground arith, tt)
trim-parts seen (event ∷ old) fresh o h =
    elim (Bool-cases (ltb buffer_size (length ((event ∷ old) ++ fresh)))) [
      | inl long ↦ (old, rw long, o.1)
      | inr fits ↦ (event ∷ old, rw fits, o)
    ]

After-append :
    (seen : ℕ) (buffer fresh : List OrderStatusEvent) (event : OrderStatusEvent)
    → event.id ≡ last_id buffer + 1
    → length fresh < buffer_size
    → After seen buffer fresh
    → After seen (trim (buffer ++ event ∷ [])) (fresh ++ event ∷ [])
After-append seen buffer fresh event e short a =
    let new = event ∷ [] in
    let (kept, parts, olds) =
      trim-parts seen a.old (fresh ++ new) a.olds (omega (arith, length-append fresh new)) in
    let joined : trim (buffer ++ new) ≡ kept ++ (fresh ++ new) =
      ap (λ b. trim (b ++ new)) a.parts ∙ ap trim (append_assoc a.old fresh new) ∙ parts in
    let last : last_id (trim (buffer ++ new)) ≡ event.id =
      ap last_id (joined ∙ sym (append_assoc kept fresh new))
      ∙ last_id-append (kept ++ fresh) event in
    record {
      old = kept;
      parts = joined;
      olds = olds;
      news =
          All-append (λ (x : OrderStatusEvent). seen < x.id) fresh new a.news
            (omega (arith, a.reached), tt);
      reached = omega (arith, last, a.reached);
    }

-- A publish for the order adds its event.
After-publish :
    (key order_id : Text) (now : ℕ) (status : OrderStatus) (service : OrderEventsService) (seen : ℕ)
    (fresh : List OrderStatusEvent)
    → key ≡ order_id
    → length fresh < buffer_size
    → After seen (get order_id service.buffers) fresh
    → After seen
        (get order_id (publish now key status service).0.buffers)
        (fresh ++ (publish now key status service).1 ∷ [])
unfolding publish next_event
After-publish key order_id now status service seen fresh same short =
    subst
      (λ k.
        After seen (get k service.buffers) fresh
        → After seen (get k (publish now key status service).0.buffers)
            (fresh ++ (publish now key status service).1 ∷ []))
      same
      (λ a.
        subst (λ b. After seen b (fresh ++ next_event now key status service ∷ []))
          (sym (get-publish now key status service))
          (After-append seen (get key service.buffers) fresh (next_event now key status service)
            refl short a))

missed_since-After :
    (order_id : Text) (seen : ℕ) (changes : List Change) (service : OrderEventsService)
    (fresh : List OrderStatusEvent)
    → After seen (get order_id service.buffers) fresh
    → length fresh + own_changes order_id changes ≤ buffer_size
    → behind order_id service.buffers + other_changes order_id changes < max_orders
    → missed_since order_id seen (publish_all changes service)
      ≡ fresh ++ published order_id changes service
unfolding missed_since publish_all published count
missed_since-After order_id seen [] service fresh a h k =
    ap (select (λ event. ltb seen event.id)) a.parts
    ∙ select-After seen a.old fresh a.olds a.news
    ∙ sym (append-nil fresh)
missed_since-After order_id seen (c ∷ changes) service fresh a h k =
    elim (Bool-cases (text_eq c.order_id order_id)) [
      | inr other ↦
          let (same, further) =
            get-publish_other c.now c.order_id order_id c.status service other
              (ground (arith, k, other)) in
          rw other (
            missed_since-After order_id seen changes (publish c.now c.order_id c.status service).0
              fresh (subst (λ b. After seen b fresh) (sym same) a) (ground (arith, h, other))
              (ground (arith, k, other, further)))
      | inl own ↦
          let same = (text_eq_iff c.order_id order_id).0 own in
          let event = (publish c.now c.order_id c.status service).1 in
          let front =
            subst (λ k. behind k (publish c.now c.order_id c.status service).0.buffers ≡ 0) same
              (behind-publish c.now c.order_id c.status service) in
          rw own (
            missed_since-After order_id seen changes (publish c.now c.order_id c.status service).0
              (fresh ++ event ∷ [])
              (After-publish c.order_id order_id c.now c.status service seen fresh same
                (ground (arith, h, own)) a)
              (ground (arith, h, own, length-append fresh (event ∷ [])))
              (ground (arith, k, own, front))
            ∙ append_assoc fresh (event ∷ []) _)
    ]

EndsAt-le :
    (last : ℕ) (buffer : List OrderStatusEvent)
    → EndsAt last buffer
    → All (λ event. event.id ≤ last) buffer
EndsAt-le last [] h = tt
EndsAt-le last (event ∷ buffer) h = (omega arith, EndsAt-le last buffer h.1)

-- On a valid service, a client that saw an order's last event, and reconnects after at most
-- buffer_size more changes of that order, is sent exactly the events of those changes, in their
-- order, also if other orders change in between: as long as those changes, and the orders that were
-- published after its last event before, are together fewer than max_orders.
pub missed_since-publish_all :
    (order_id : Text) (changes : List Change) (service : OrderEventsService)
    → IsValid service
    → own_changes order_id changes ≤ buffer_size
    → behind order_id service.buffers + other_changes order_id changes < max_orders
    → missed_since order_id (last_id (get order_id service.buffers)) (publish_all changes service)
      ≡ published order_id changes service
missed_since-publish_all order_id changes service v h k =
    let buffer = get order_id service.buffers in
    missed_since-After order_id (last_id buffer) changes service []
      (record {
        old = buffer;
        parts = sym (append-nil buffer);
        olds =
            EndsAt-le (last_id buffer) buffer
              (get-IsBuffer order_id service.buffers v.each).numbered;
        news = tt;
        reached = omega arith;
      })
      (omega (arith, h)) k

-- An order without a buffer is numbered from 1 again, so a client that has already seen an event of
-- it is sent nothing of the next one.
pub missed_since_restarted :
    (now seen : ℕ) (order_id : Text) (status : OrderStatus) (service : OrderEventsService)
    → get order_id service.buffers ≡ []
    → 0 < seen
    → ((publish now order_id status service).1.id ≡ 1)
      × (missed_since order_id seen (publish now order_id status service).0 ≡ [])
unfolding missed_since publish next_event last_id select trim
missed_since_restarted now seen order_id status service h pos =
    let event = next_event now order_id status service in
    (
      ap (λ b. last_id b + 1) h,
      ap (select (λ x. ltb seen x.id))
            (get-publish now order_id status service ∙ ap (λ b. trim (b ++ event ∷ [])) h)
          ∙ ground (arith, ap (λ b. last_id b + 1) h),
    )
