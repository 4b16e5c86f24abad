-- ===== src/Consumer/Service.antt =====
-- messaging/order-placed.consumer.ts: the inbox, the receipts and the handler of a delivery.
use one_marketplace.Base.{
  ℕ, ◌+◌, Bool, true, false, ◌&&◌, List, [], ◌∷◌, ◌++◌, Outcome, ok, err, ltb, ◌==◌, if◌then◌else◌,
}
use one_marketplace.Base.Text.{Text, codes, text_eq, number}
use one_marketplace.Base.Table.{exists}
use one_marketplace.Entities.{Db, ProcessedMessage, Receipt, Order}
use one_marketplace.Checkout.Input.{int4_max, int8_max}
use one_marketplace.Checkout.Transaction.{Tx, ◌>>=◌, pure, transaction}
use one_marketplace.Consumer.Message.{ConsumeMessage, IncomingEvent, uuid_value, parse_message}

pub record ConsumerStats : Type 0 where
  pub delivered : ℕ
  pub effect : ℕ
  pub skipped : ℕ
  pub already_applied : ℕ
  pub rejected : ℕ
  pub requeued : ℕ
  pub acked : ℕ

abbrev pub no_stats : ConsumerStats
no_stats = record {
  delivered = 0;
  effect = 0;
  skipped = 0;
  already_applied = 0;
  rejected = 0;
  requeued = 0;
  acked = 0;
}

pub data ApplyResult : Type 0 where
  applied duplicate already_applied : ApplyResult

-- Why a transaction throws: an error of the second statement, or the connection's.
pub data ApplyFault : Type 0 where
  numeric_value_out_of_range unique_violation foreign_key_violation : ApplyFault
  connection_lost : ApplyFault

abbrev pub receipts_consumer : Text
receipts_consumer = codes "receipts"

unfoldable pub is_marked : ℕ → List ProcessedMessage → Bool
is_marked id messages =
    exists (λ (m : ProcessedMessage). m.message_id == id && text_eq m.consumer receipts_consumer)
      messages

-- INSERT INTO processed_messages ... ON CONFLICT DO NOTHING RETURNING: whether a row was inserted.
unfoldable pub mark_processed : ℕ → ℕ → Tx ApplyFault Bool
mark_processed now id db =
    if is_marked id db.processed_messages
    then ok (false, db)
    else ok (
      true,
      record db {
        processed_messages =
            db.processed_messages
            ++ (record { message_id = id; consumer = receipts_consumer; processed_at = now } ∷ []);
      },
    )

unfoldable pub has_receipt : ℕ → List Receipt → Bool
has_receipt order_id receipts = exists (λ (r : Receipt). r.order_id == order_id) receipts

unfoldable pub has_event : Text → List Receipt → Bool
has_event event_id receipts = exists (λ (r : Receipt). text_eq r.event_id event_id) receipts

abbrev pub new_receipt : ℕ → IncomingEvent → Db → Receipt
new_receipt now event db = record {
  id = db.next_receipt;
  event_id = event.event_id;
  order_id = number event.order_id;
  total = event.total;
  issued_at = now;
}

-- INSERT INTO receipts ... ON CONFLICT (order_id) DO NOTHING RETURNING: whether a row was inserted.
-- The parameters are read first; a second receipt of an event and an order that is not there fail.
unfoldable pub issue_receipt : ℕ → IncomingEvent → Tx ApplyFault Bool
issue_receipt now event db =
    if ltb int8_max (number event.order_id)
    then err ApplyFault.numeric_value_out_of_range
    else if ltb int4_max event.total
    then err ApplyFault.numeric_value_out_of_range
    else if has_receipt (number event.order_id) db.receipts
    then ok (false, db)
    else if has_event event.event_id db.receipts
    then err ApplyFault.unique_violation
    else if exists (λ (o : Order). o.id == number event.order_id) db.orders
    then ok (
      true,
      record db {
        receipts = db.receipts ++ (new_receipt now event db ∷ []);
        next_receipt = db.next_receipt + 1;
      },
    )
    else err ApplyFault.foreign_key_violation

-- The transaction after its first statement.
unfoldable pub after_mark : ℕ → IncomingEvent → Bool → Tx ApplyFault ApplyResult
after_mark now event false = pure ApplyResult.duplicate
after_mark now event true = issue_receipt now event >>= λ issued.
    pure (if issued then ApplyResult.applied else ApplyResult.already_applied)

unfoldable pub apply_body : ℕ → IncomingEvent → Tx ApplyFault ApplyResult
apply_body now event =
    mark_processed now (uuid_value 0 event.message_id) >>= λ marked. after_mark now event marked

unfoldable pub apply_order_placed : ℕ → IncomingEvent → Db → Outcome ApplyFault ApplyResult × Db
apply_order_placed now event db = transaction (apply_body now event) db

-- The connection during a delivery: up, lost before the commit, or lost before its confirmation.
pub data Link : Type 0 where
  up down unconfirmed : Link

unfoldable pub over :
    Link → Outcome ApplyFault ApplyResult × Db → Db → Outcome ApplyFault ApplyResult × Db
over up (result, after) db = (result, after)
over down (result, after) db = (err ApplyFault.connection_lost, db)
over unconfirmed (result, after) db = (err ApplyFault.connection_lost, after)

pub record Delivery : Type 0 where
  pub message : ConsumeMessage
  pub link : Link
  pub now : ℕ
  pub on_effect_throws : Bool

-- What the channel is told: `ack`, or `reject` with or without a requeue.
pub data Verdict : Type 0 where
  acknowledged discarded requeued : Verdict

pub record Consumer : Type 0 where
  pub db : Db
  pub stats : ConsumerStats

abbrev pub on_delivered : ConsumerStats → ConsumerStats
on_delivered stats = record stats { delivered = stats.delivered + 1 }

abbrev pub on_rejected : ConsumerStats → ConsumerStats
on_rejected stats = record stats { rejected = stats.rejected + 1 }

abbrev pub on_requeued : ConsumerStats → ConsumerStats
on_requeued stats = record stats { requeued = stats.requeued + 1 }

abbrev pub on_acked : ConsumerStats → ConsumerStats
on_acked stats = record stats { acked = stats.acked + 1 }

abbrev pub on_result : ApplyResult → ConsumerStats → ConsumerStats
on_result ApplyResult.applied stats = record stats { effect = stats.effect + 1 }
on_result ApplyResult.duplicate stats = record stats { skipped = stats.skipped + 1 }
on_result ApplyResult.already_applied stats = record stats {
  already_applied = stats.already_applied + 1;
}

-- Whether the code after the transaction throws: only an applied event calls the hook.
abbrev pub hook_throws : Bool → ApplyResult → Bool
hook_throws throws ApplyResult.applied = throws
hook_throws throws ApplyResult.duplicate = false
hook_throws throws ApplyResult.already_applied = false

unfoldable pub concluded :
    Delivery → ConsumerStats → Outcome ApplyFault ApplyResult → Verdict × ConsumerStats
concluded d stats (err e) = (Verdict.requeued, on_requeued stats)
concluded d stats (ok result) =
    if hook_throws d.on_effect_throws result
    then (Verdict.requeued, on_requeued (on_result result stats))
    else (Verdict.acknowledged, on_acked (on_result result stats))

unfoldable pub handle : Delivery → Consumer → Verdict × Consumer
handle d c =
    let stats = on_delivered c.stats in
    elim (parse_message d.message) [
      | err e ↦ (Verdict.discarded, record c { stats = on_rejected stats })
      | ok event ↦
          let (result, after) = over d.link (apply_order_placed d.now event c.db) c.db in
          let (verdict, counted) = concluded d stats result in
          (verdict, record { db = after; stats = counted })
    ]

unfoldable pub handle_all : List Delivery → Consumer → Consumer
handle_all [] c = c
handle_all (d ∷ ds) c = handle_all ds (handle d c).1
