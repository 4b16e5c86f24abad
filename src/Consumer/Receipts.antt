-- ===== src/Consumer/Receipts.antt =====
-- What the consumer's transaction (messaging/order-placed.consumer.ts, `applyOrderPlaced`) does to
-- the inbox and to the receipts.
use one_marketplace.Base.{
  ℕ, ◌+◌, ◌≡◌, refl, sym, ap, subst, ◌∙◌, Bool, true, false, [], ◌∷◌, ◌++◌, inl, inr, Outcome, ok,
  err, ltb, ◌==◌, if◌then◌else◌, Bool-cases,
}
use one_marketplace.Base.Text.{number}
use one_marketplace.Base.Table.{exists}
use one_marketplace.Entities.{Db, Order}
use one_marketplace.Checkout.Input.{int4_max, int8_max}
use one_marketplace.Checkout.Transaction.{transaction, settle}
use one_marketplace.Consumer.Message.{IncomingEvent, uuid_value}
use one_marketplace.Consumer.Service.{
  ApplyResult, ApplyFault, receipts_consumer, is_marked, mark_processed, has_receipt, has_event,
  new_receipt, issue_receipt, after_mark, apply_body, apply_order_placed,
}

abbrev pub message_key : IncomingEvent → ℕ
message_key event = uuid_value 0 event.message_id

abbrev pub marked_db : ℕ → IncomingEvent → Db → Db
marked_db now event db = record db {
  processed_messages =
      db.processed_messages
      ++ (record {
        message_id = message_key event;
        consumer = receipts_consumer;
        processed_at = now;
      }
          ∷ []);
}

abbrev pub issued_db : ℕ → IncomingEvent → Db → Db
issued_db now event db = record (marked_db now event db) {
  receipts = db.receipts ++ (new_receipt now event db ∷ []);
  next_receipt = db.next_receipt + 1;
}

-- How a transaction ends.
pub data Ending (now : ℕ) (event : IncomingEvent) (db : Db)
    : Outcome ApplyFault ApplyResult × Db → Type 0 where
  repeated :
      is_marked (message_key event) db.processed_messages ≡ true
      → Ending now event db (ok ApplyResult.duplicate, db)
  known :
      is_marked (message_key event) db.processed_messages ≡ false
      → has_receipt (number event.order_id) db.receipts ≡ true
      → Ending now event db (ok ApplyResult.already_applied, marked_db now event db)
  issued :
      is_marked (message_key event) db.processed_messages ≡ false
      → has_receipt (number event.order_id) db.receipts ≡ false
      → exists (λ (o : Order). o.id == number event.order_id) db.orders ≡ true
      → Ending now event db (ok ApplyResult.applied, issued_db now event db)
  refused :
      (fault : ApplyFault)
      → is_marked (message_key event) db.processed_messages ≡ false
      → Ending now event db (err fault, db)

mark_processed-old :
    (now id : ℕ) (db : Db)
    → is_marked id db.processed_messages ≡ true
    → mark_processed now id db ≡ ok (false, db)
unfolding mark_processed
mark_processed-old now id db e = rw e refl

mark_processed-new :
    (now : ℕ) (event : IncomingEvent) (db : Db)
    → is_marked (message_key event) db.processed_messages ≡ false
    → mark_processed now (message_key event) db ≡ ok (true, marked_db now event db)
unfolding mark_processed
mark_processed-new now event db e = rw e refl

-- The three ends of the second statement.
data Issue (now : ℕ) (event : IncomingEvent) (db : Db)
    : Outcome ApplyFault (Bool × Db) → Type 0 where
  there :
      has_receipt (number event.order_id) db.receipts ≡ true → Issue now event db (ok (false, db))
  added :
      has_receipt (number event.order_id) db.receipts ≡ false
      → exists (λ (o : Order). o.id == number event.order_id) db.orders ≡ true
      → Issue now event db (
          ok (
            true,
            record db {
              receipts = db.receipts ++ (new_receipt now event db ∷ []);
              next_receipt = db.next_receipt + 1;
            },
          ))
  failed : (fault : ApplyFault) → Issue now event db (err fault)

issue_receipt-Issue :
    (now : ℕ) (event : IncomingEvent) (db : Db) → Issue now event db (issue_receipt now event db)
unfolding issue_receipt
issue_receipt-Issue now event db = elim (Bool-cases (ltb int8_max (number event.order_id))) [
  | inl a ↦ rw a (failed ApplyFault.numeric_value_out_of_range)
  | inr a ↦ elim (Bool-cases (ltb int4_max event.total)) [
    | inl b ↦ rw (a, b) (failed ApplyFault.numeric_value_out_of_range)
    | inr b ↦ elim (Bool-cases (has_receipt (number event.order_id) db.receipts)) [
      | inl c ↦ rw (a, b, c) (there c)
      | inr c ↦ elim (Bool-cases (has_event event.event_id db.receipts)) [
        | inl d ↦ rw (a, b, c, d) (failed ApplyFault.unique_violation)
        | inr d ↦
            elim (Bool-cases (exists (λ (o : Order). o.id == number event.order_id) db.orders)) [
              | inl e ↦ rw (a, b, c, d, e) (added c e)
              | inr e ↦ rw (a, b, c, d, e) (failed ApplyFault.foreign_key_violation)
            ]
      ]
    ]
  ]
]

-- What the transaction makes of the second statement's end.
abbrev end_of : Db → Outcome ApplyFault (Bool × Db) → Outcome ApplyFault ApplyResult × Db
end_of db (ok (true, after)) = (ok ApplyResult.applied, after)
end_of db (ok (false, after)) = (ok ApplyResult.already_applied, after)
end_of db (err fault) = (err fault, db)

settle-end_of :
    (db : Db) (m : Outcome ApplyFault (Bool × Db))
    → settle
        (elim m [
          | ok (inserted, after) ↦
              ok (if inserted then ApplyResult.applied else ApplyResult.already_applied, after)
          | err fault ↦ err fault
        ])
        db
      ≡ end_of db m
settle-end_of db (ok (true, after)) = refl
settle-end_of db (ok (false, after)) = refl
settle-end_of db (err fault) = refl

apply_order_placed-mark :
    (now : ℕ) (event : IncomingEvent) (db : Db) {marked : Bool} {after : Db}
    → mark_processed now (message_key event) db ≡ ok (marked, after)
    → apply_order_placed now event db ≡ settle (after_mark now event marked after) db
unfolding apply_order_placed apply_body transaction
apply_order_placed-mark now event db e =
    ap
      (λ (m : Outcome ApplyFault (Bool × Db)).
        settle
          (elim m [
            | ok (marked, after) ↦ after_mark now event marked after
            | err fault ↦ err fault
          ])
          db)
      e

apply_order_placed-new :
    (now : ℕ) (event : IncomingEvent) (db : Db)
    → is_marked (message_key event) db.processed_messages ≡ false
    → apply_order_placed now event db ≡ end_of db (issue_receipt now event (marked_db now event db))
unfolding after_mark
apply_order_placed-new now event db e =
    apply_order_placed-mark now event db (mark_processed-new now event db e)
    ∙ settle-end_of db (issue_receipt now event (marked_db now event db))

end_of-Ending :
    (now : ℕ) (event : IncomingEvent) (db : Db) (m : Outcome ApplyFault (Bool × Db))
    → is_marked (message_key event) db.processed_messages ≡ false
    → Issue now event (marked_db now event db) m
    → Ending now event db (end_of db m)
end_of-Ending now event db m e (there h) = known e h
end_of-Ending now event db m e (added h o) = issued e h o
end_of-Ending now event db m e (failed fault) = refused fault e

-- A message is a duplicate exactly when its id is in the inbox. Else the order, which is there,
-- gets its receipt, or it had one; or the transaction fails and leaves the database as it was.
pub apply_order_placed-Ending :
    (now : ℕ) (event : IncomingEvent) (db : Db)
    → Ending now event db (apply_order_placed now event db)
unfolding after_mark
apply_order_placed-Ending now event db =
    elim (Bool-cases (is_marked (message_key event) db.processed_messages)) [
      | inl e ↦
          subst (Ending now event db)
            (sym (
              apply_order_placed-mark now event db
                (mark_processed-old now (message_key event) db e)))
            (repeated e)
      | inr e ↦
          subst (Ending now event db) (sym (apply_order_placed-new now event db e)) (
            end_of-Ending now event db _ e (issue_receipt-Issue now event (marked_db now event db)))
    ]
