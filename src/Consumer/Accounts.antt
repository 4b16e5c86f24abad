-- ===== src/Consumer/Accounts.antt =====
-- What a sequence of deliveries leaves behind (messaging/order-placed.consumer.ts, `handle`).
use one_marketplace.Base.{
  ℕ, ◌+◌, ◌≤◌, ◌≡◌, refl, List, [], ◌∷◌, inl, inr, Outcome, ok, err, arith, ◌==◌, Bool-cases,
  Outcome-cases, length, length-append,
}
use one_marketplace.Base.Text.{number}
use one_marketplace.Base.Table.{first-exists}
use one_marketplace.Base.Keyed.{DistinctKeys, DistinctKeys-append_fresh}
use one_marketplace.Entities.{Db, Receipt}
use one_marketplace.Consumer.Message.{IncomingEvent, parse_message}
use one_marketplace.Consumer.Service.{
  ApplyResult, ApplyFault, Link, up, down, unconfirmed, has_receipt, new_receipt, over, Delivery,
  Consumer, on_delivered, concluded, handle, handle_all,
}
use one_marketplace.Consumer.Receipts.{
  Ending, repeated, known, issued, refused, apply_order_placed-Ending,
}

-- At most one receipt for an order.
abbrev pub OneReceipt : List Receipt → Type 0
OneReceipt receipts = DistinctKeys (λ r. r.order_id) receipts

-- The counters against each other and against the receipts, of which there were `before`.
pub record IsAccounted (before : ℕ) (c : Consumer) : Type 0 where
  pub one_receipt : OneReceipt c.db.receipts
  pub verdicts : c.stats.delivered ≡ c.stats.acked + c.stats.rejected + c.stats.requeued
  pub acked : c.stats.acked ≤ c.stats.effect + c.stats.skipped + c.stats.already_applied
  pub results :
      c.stats.effect + c.stats.skipped + c.stats.already_applied ≤ c.stats.acked + c.stats.requeued
  pub effects : before + c.stats.effect ≤ length c.db.receipts
  pub receipts : length c.db.receipts ≤ before + c.stats.effect + c.stats.requeued

-- A transaction's end, as the counters see it.
record Change (db : Db) (result : Outcome ApplyFault ApplyResult) (after : Db) : Type 0 where
  pub one_receipt : OneReceipt db.receipts → OneReceipt after.receipts
  pub fewest : length db.receipts ≤ length after.receipts
  pub most : length after.receipts ≤ length db.receipts + 1
  pub applied_grows :
      result ≡ ok ApplyResult.applied → length after.receipts ≡ length db.receipts + 1
  pub duplicate_keeps :
      result ≡ ok ApplyResult.duplicate → length after.receipts ≡ length db.receipts
  pub known_keeps :
      result ≡ ok ApplyResult.already_applied → length after.receipts ≡ length db.receipts

Ending-Change :
    (now : ℕ) (event : IncomingEvent) (db : Db) (r : Outcome ApplyFault ApplyResult × Db)
    → Ending now event db r
    → Change db r.0 r.1
unfolding has_receipt
Ending-Change now event db r (repeated e) = record {
  one_receipt = λ d. d;
  fewest = omega arith;
  most = omega arith;
  applied_grows = λ h. absurd (ground arith);
  duplicate_keeps = λ h. refl;
  known_keeps = λ h. refl;
}
Ending-Change now event db r (known e h) = record {
  one_receipt = λ d. d;
  fewest = omega arith;
  most = omega arith;
  applied_grows = λ h. absurd (ground arith);
  duplicate_keeps = λ h. refl;
  known_keeps = λ h. refl;
}
Ending-Change now event db r (issued e h o) =
    let longer = length-append db.receipts (new_receipt now event db ∷ []) in
    record {
      one_receipt = λ d.
          DistinctKeys-append_fresh (λ r. r.order_id) db.receipts (new_receipt now event db)
            (first-exists (λ r. r.order_id == number event.order_id) db.receipts h) d;
      fewest = omega (arith, longer);
      most = omega (arith, longer);
      applied_grows = λ h. longer;
      duplicate_keeps = λ h. absurd (ground arith);
      known_keeps = λ h. absurd (ground arith);
    }
Ending-Change now event db r (refused f e) = record {
  one_receipt = λ d. d;
  fewest = omega arith;
  most = omega arith;
  applied_grows = λ h. absurd (ground arith);
  duplicate_keeps = λ h. refl;
  known_keeps = λ h. refl;
}

over-Change :
    (link : Link) (db : Db) (r : Outcome ApplyFault ApplyResult × Db)
    → Change db r.0 r.1
    → Change db (over link r db).0 (over link r db).1
unfolding over
over-Change up db r c = c
over-Change down db r c = record {
  one_receipt = λ d. d;
  fewest = omega arith;
  most = omega arith;
  applied_grows = λ h. absurd (ground arith);
  duplicate_keeps = λ h. refl;
  known_keeps = λ h. refl;
}
over-Change unconfirmed db r c = record {
  one_receipt = c.one_receipt;
  fewest = c.fewest;
  most = c.most;
  applied_grows = λ h. absurd (ground arith);
  duplicate_keeps = λ h. absurd (ground arith);
  known_keeps = λ h. absurd (ground arith);
}

applied-IsAccounted :
    (before : ℕ) (d : Delivery) (c : Consumer) (after : Db)
    → IsAccounted before c
    → Change c.db (ok ApplyResult.applied) after
    → IsAccounted before (record {
      db = after;
      stats = (concluded d (on_delivered c.stats) (ok ApplyResult.applied)).1;
    })
unfolding concluded
applied-IsAccounted before d c after a change =
    let grows = change.applied_grows refl in
    elim (Bool-cases d.on_effect_throws) [
      | inl thrown ↦ rw thrown (record {
        one_receipt = change.one_receipt a.one_receipt;
        verdicts = omega (arith, a.verdicts);
        acked = omega (arith, a.acked);
        results = omega (arith, a.results);
        effects = omega (arith, a.effects, grows);
        receipts = omega (arith, a.receipts, grows);
      })
      | inr calm ↦ rw calm (record {
        one_receipt = change.one_receipt a.one_receipt;
        verdicts = omega (arith, a.verdicts);
        acked = omega (arith, a.acked);
        results = omega (arith, a.results);
        effects = omega (arith, a.effects, grows);
        receipts = omega (arith, a.receipts, grows);
      })
    ]

concluded-IsAccounted :
    (before : ℕ) (d : Delivery) (c : Consumer) (result : Outcome ApplyFault ApplyResult)
    (after : Db)
    → IsAccounted before c
    → Change c.db result after
    → IsAccounted before
        (record { db = after; stats = (concluded d (on_delivered c.stats) result).1 })
unfolding concluded
concluded-IsAccounted before d c (err f) after a change = record {
  one_receipt = change.one_receipt a.one_receipt;
  verdicts = omega (arith, a.verdicts);
  acked = a.acked;
  results = omega (arith, a.results);
  effects = omega (arith, a.effects, change.fewest);
  receipts = omega (arith, a.receipts, change.most);
}
concluded-IsAccounted before d c (ok ApplyResult.applied) after a change =
    applied-IsAccounted before d c after a change
concluded-IsAccounted before d c (ok ApplyResult.duplicate) after a change = record {
  one_receipt = change.one_receipt a.one_receipt;
  verdicts = omega (arith, a.verdicts);
  acked = omega (arith, a.acked);
  results = omega (arith, a.results);
  effects = omega (arith, a.effects, change.fewest);
  receipts = omega (arith, a.receipts, change.duplicate_keeps refl);
}
concluded-IsAccounted before d c (ok ApplyResult.already_applied) after a change = record {
  one_receipt = change.one_receipt a.one_receipt;
  verdicts = omega (arith, a.verdicts);
  acked = omega (arith, a.acked);
  results = omega (arith, a.results);
  effects = omega (arith, a.effects, change.fewest);
  receipts = omega (arith, a.receipts, change.known_keeps refl);
}

handle-IsAccounted :
    (before : ℕ) (d : Delivery) (c : Consumer)
    → IsAccounted before c
    → IsAccounted before (handle d c).1
unfolding handle
handle-IsAccounted before d c a = elim (Outcome-cases (parse_message d.message)) [
  | inr (e, poison) ↦
      rw (poison, handle)
        (record {
          one_receipt = a.one_receipt;
          verdicts = omega (arith, a.verdicts);
          acked = a.acked;
          results = a.results;
          effects = a.effects;
          receipts = a.receipts;
        })
  | inl (event, read) ↦
      rw (read, handle)
        (concluded-IsAccounted before d c _ _ a (
          over-Change d.link c.db _
            (Ending-Change d.now event c.db _ (apply_order_placed-Ending d.now event c.db))))
]

-- From counters that agree with each other and with the receipts, and one receipt an order, any
-- deliveries keep them so, however they repeat, fail or lose their connection: each ends in one
-- verdict, an order has at most one receipt, and the receipts are the effects counted and at most
-- one more for each requeue.
pub handle_all-IsAccounted :
    (before : ℕ) (ds : List Delivery) (c : Consumer)
    → IsAccounted before c
    → IsAccounted before (handle_all ds c)
unfolding handle_all
handle_all-IsAccounted before [] c a = a
handle_all-IsAccounted before (d ∷ ds) c a =
    handle_all-IsAccounted before ds _ (handle-IsAccounted before d c a)
