-- ===== src/Consumer/Once.antt =====
-- That a message takes effect once (messaging/order-placed.consumer.ts), and that the consumer
-- accepts the events that messaging/order-placed.publisher.ts publishes.
use one_marketplace.Base.{
  ℕ, ◌+◌, ◌≡◌, refl, sym, ap, subst, ◌∙◌, true, ◌&&◌, some, List, [], ◌∷◌, ◌++◌, inl, inr, ◌⊎◌,
  Outcome, ok, err, arith, ◌==◌, ==_refl, Outcome-cases,
}
use one_marketplace.Base.Text.{Text, text_eq, text_eq_refl, is_id}
use one_marketplace.Base.Table.{exists, exists-append}
use one_marketplace.Entities.{
  Db, ProcessedMessage, OrderPlacedSource, order_placed_type, to_order_placed_event,
}
use one_marketplace.Consumer.Message.{
  IncomingEvent, matches, uuid_pattern, contract, parse_message, to_content,
}
use one_marketplace.Consumer.Service.{
  ConsumerStats, ApplyResult, ApplyFault, Link, up, down, unconfirmed, receipts_consumer, is_marked,
  apply_order_placed, over, Delivery, Verdict, Consumer, on_delivered, concluded, handle,
  handle_all,
}
use one_marketplace.Consumer.Receipts.{
  Ending, repeated, known, issued, refused, message_key, apply_order_placed-Ending,
}

is_marked-append :
    (id now key : ℕ) (messages : List ProcessedMessage)
    → is_marked id messages ≡ true
    → is_marked id (
        messages
        ++ (record { message_id = key; consumer = receipts_consumer; processed_at = now } ∷ []))
      ≡ true
unfolding is_marked
is_marked-append id now key messages h = rw (exists-append _ messages _, h) refl

is_marked-new :
    (id now : ℕ) (messages : List ProcessedMessage)
    → is_marked id (
        messages
        ++ (record { message_id = id; consumer = receipts_consumer; processed_at = now } ∷ []))
      ≡ true
unfolding is_marked exists
is_marked-new id now messages = ground (
  arith,
  exists-append
      (λ (m : ProcessedMessage). m.message_id == id && text_eq m.consumer receipts_consumer)
      messages (record { message_id = id; consumer = receipts_consumer; processed_at = now } ∷ []),
  ==_refl id,
  text_eq_refl receipts_consumer,
)

Ending-is_marked :
    (id now : ℕ) (event : IncomingEvent) (db : Db) (r : Outcome ApplyFault ApplyResult × Db)
    → Ending now event db r
    → is_marked id db.processed_messages ≡ true
    → is_marked id r.1.processed_messages ≡ true
Ending-is_marked id now event db r (repeated e) h = h
Ending-is_marked id now event db r (known e f) h =
    is_marked-append id now (message_key event) db.processed_messages h
Ending-is_marked id now event db r (issued e f o) h =
    is_marked-append id now (message_key event) db.processed_messages h
Ending-is_marked id now event db r (refused fault e) h = h

over-is_marked :
    (id : ℕ) (link : Link) (db : Db) (r : Outcome ApplyFault ApplyResult × Db)
    → is_marked id db.processed_messages ≡ true
    → is_marked id r.1.processed_messages ≡ true
    → is_marked id (over link r db).1.processed_messages ≡ true
unfolding over
over-is_marked id up db r h k = k
over-is_marked id down db r h k = h
over-is_marked id unconfirmed db r h k = k

handle-is_marked :
    (id : ℕ) (d : Delivery) (c : Consumer)
    → is_marked id c.db.processed_messages ≡ true
    → is_marked id (handle d c).1.db.processed_messages ≡ true
unfolding handle
handle-is_marked id d c h = elim (Outcome-cases (parse_message d.message)) [
  | inr (e, poison) ↦ rw (poison, handle) h
  | inl (event, read) ↦
      rw (read, handle)
        (over-is_marked id d.link c.db _ h
          (Ending-is_marked id d.now event c.db _ (apply_order_placed-Ending d.now event c.db) h))
]

handle_all-is_marked :
    (id : ℕ) (ds : List Delivery) (c : Consumer)
    → is_marked id c.db.processed_messages ≡ true
    → is_marked id (handle_all ds c).db.processed_messages ≡ true
unfolding handle_all
handle_all-is_marked id [] c h = h
handle_all-is_marked id (d ∷ ds) c h = handle_all-is_marked id ds _ (handle-is_marked id d c h)

-- A transaction that returns has its message in the inbox.
returned-is_marked :
    (now : ℕ) (event : IncomingEvent) (db : Db) (r : Outcome ApplyFault ApplyResult × Db)
    → Ending now event db r
    → (result : ApplyResult) → r.0 ≡ ok result
    → is_marked (message_key event) r.1.processed_messages ≡ true
returned-is_marked now event db r (repeated e) result h = e
returned-is_marked now event db r (known e f) result h =
    is_marked-new (message_key event) now db.processed_messages
returned-is_marked now event db r (issued e f o) result h =
    is_marked-new (message_key event) now db.processed_messages
returned-is_marked now event db r (refused fault e) result h = absurd (ground arith)

over-returned :
    (link : Link) (db : Db) (r : Outcome ApplyFault ApplyResult × Db) (result : ApplyResult)
    → (over link r db).0 ≡ ok result
    → over link r db ≡ r
unfolding over
over-returned up db r result h = refl
over-returned down db r result h = absurd (ground arith)
over-returned unconfirmed db r result h = absurd (ground arith)

-- What the handler does with a message that meets the contract.
abbrev consume : Delivery → IncomingEvent → Consumer → Verdict × Consumer
consume d event c =
    let (result, after) = over d.link (apply_order_placed d.now event c.db) c.db in
    let (verdict, counted) = concluded d (on_delivered c.stats) result in
    (verdict, record { db = after; stats = counted })

handle-consume :
    (d : Delivery) (c : Consumer) (event : IncomingEvent)
    → parse_message d.message ≡ ok event
    → handle d c ≡ consume d event c
unfolding handle
handle-consume d c event read = rw (read, handle) refl

-- A delivery that was acknowledged, or whose effect was counted.
abbrev pub IsEffective : Consumer → Verdict × Consumer → Type 0
IsEffective c r = (r.0 ≡ Verdict.acknowledged) ⊎ (r.1.stats.effect ≡ c.stats.effect + 1)

concluded-returned :
    (d : Delivery) (stats : ConsumerStats) (outcome : Outcome ApplyFault ApplyResult)
    → ((concluded d (on_delivered stats) outcome).0 ≡ Verdict.acknowledged)
      ⊎ ((concluded d (on_delivered stats) outcome).1.effect ≡ stats.effect + 1)
    → (result : ApplyResult) × (outcome ≡ ok result)
unfolding concluded
concluded-returned d stats (ok result) h = (result, refl)
concluded-returned d stats (err fault) (inl h) = absurd (ground arith)
concluded-returned d stats (err fault) (inr h) = absurd (omega (arith, h))

consume-is_marked :
    (d : Delivery) (event : IncomingEvent) (c : Consumer)
    → IsEffective c (consume d event c)
    → is_marked (message_key event) (consume d event c).1.db.processed_messages ≡ true
consume-is_marked d event c h =
    let (result, e) = concluded-returned d c.stats _ h in
    let same = over-returned d.link c.db (apply_order_placed d.now event c.db) result e in
    subst
      (λ (r : Outcome ApplyFault ApplyResult × Db).
        is_marked (message_key event) r.1.processed_messages ≡ true)
      (sym same)
      (returned-is_marked d.now event c.db _ (apply_order_placed-Ending d.now event c.db) result
        (sym (ap (λ r. r.0) same) ∙ e))

-- A transaction on a message that is in the inbox changes nothing.
Ending-repeated :
    (now : ℕ) (event : IncomingEvent) (db : Db) (r : Outcome ApplyFault ApplyResult × Db)
    → Ending now event db r
    → is_marked (message_key event) db.processed_messages ≡ true
    → r ≡ (ok ApplyResult.duplicate, db)
Ending-repeated now event db r (repeated e) h = refl
Ending-repeated now event db r (known e f) h = absurd (ground arith)
Ending-repeated now event db r (issued e f o) h = absurd (ground arith)
Ending-repeated now event db r (refused fault e) h = absurd (ground arith)

-- What a delivery that changes nothing but the counters comes to.
pub record IsSkipped (c : Consumer) (r : Verdict × Consumer) : Type 0 where
  pub verdict : r.0 ≡ Verdict.acknowledged
  pub same_db : r.1.db ≡ c.db
  pub skipped : r.1.stats.skipped ≡ c.stats.skipped + 1
  pub effect : r.1.stats.effect ≡ c.stats.effect

consume-IsSkipped :
    (d : Delivery) (event : IncomingEvent) (c : Consumer)
    → d.link ≡ up
    → is_marked (message_key event) c.db.processed_messages ≡ true
    → IsSkipped c (consume d event c)
unfolding over concluded
consume-IsSkipped d event c is_up h =
    let end = Ending-repeated d.now event c.db _ (apply_order_placed-Ending d.now event c.db) h in
    rw (is_up, end) (record { verdict = refl; same_db = refl; skipped = refl; effect = refl })

-- Once a delivery that meets the contract is acknowledged, or its effect is counted although the
-- hook then threw, every later delivery of the same message over a working connection is skipped:
-- it is acknowledged and leaves the database as it is.
pub handle-once :
    (d again : Delivery) (between : List Delivery) (c : Consumer) (event : IncomingEvent)
    → parse_message d.message ≡ ok event
    → IsEffective c (handle d c)
    → again.message ≡ d.message
    → again.link ≡ up
    → IsSkipped
        (handle_all between (handle d c).1)
        (handle again (handle_all between (handle d c).1))
handle-once d again between c event read effective same is_up =
    let first = handle-consume d c event read in
    let marked =
      subst
        (λ (r : Verdict × Consumer). is_marked (message_key event) r.1.db.processed_messages ≡ true)
        (sym first) (consume-is_marked d event c (subst (IsEffective c) first effective)) in
    let later = handle_all between (handle d c).1 in
    subst (IsSkipped later) (sym (handle-consume again later event (ap parse_message same ∙ read)))
      (consume-IsSkipped again event later is_up
        (handle_all-is_marked (message_key event) between _ marked))

-- A message with a uuid and the event of an order, whose id is of digits, is read as that order's
-- event.
pub parse_message-to_content :
    (message_id : Text) (order : OrderPlacedSource)
    → matches uuid_pattern message_id ≡ true
    → is_id order.id ≡ true
    → parse_message (record {
      message_id = some message_id;
      content = some (to_content (to_order_placed_event order));
    })
      ≡ ok (record {
        message_id = message_id;
        event_id = (to_order_placed_event order).event_id;
        order_id = order.id;
        total = order.total;
      })
unfolding parse_message contract to_content to_order_placed_event
parse_message-to_content message_id order m i =
    rw (m, contract, text_eq_refl order_placed_type, i) refl
