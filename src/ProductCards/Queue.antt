-- ===== src/ProductCards/Queue.antt =====
-- queue/product-card-refresher.ts and queue/product-cards.queue.ts: the jobs that refresh product cards,
-- and what the worker does with them. BullMQ's queue is the list of the jobs added.
use one_marketplace.Base.{
  ℕ, ◌≡◌, refl, ap, ◌∙◌, Bool, true, Option, none, some, List, [], ◌∷◌, ◌++◌, map, Outcome, ok, err,
  arith, if◌then◌else◌,
}
use one_marketplace.Base.Text.{Text, codes, text_eq, text_eq_iff, decimal}
use one_marketplace.Base.Table.{exists, count}
use one_marketplace.Entities.{Db, OrderItem, Product}
use one_marketplace.PlaceOrder.{LoadedOrder, find_by_id, PlacedOrder, PlaceFailure}
use one_marketplace.ProductCards.Products.{find_all}
use one_marketplace.ProductCards.Cache.{Moment, cache_del}
use one_marketplace.ProductCards.Service.{Cards, Turn, CardFailure, query_failed, Answer, get_card}

pub record RefreshJob : Type 0 where
  pub job_id : Text
  pub product_id : Text

-- `refresh-${productId}-${eventKey}`
unfoldable pub refresh_job_id : Text → Text → Text
refresh_job_id product_id event_key = codes "refresh-" ++ (product_id ++ (codes "-" ++ event_key))

-- enqueueRefresh
unfoldable pub refresh_job : Text → Text → RefreshJob
refresh_job event_key product_id = record {
  job_id = refresh_job_id product_id event_key;
  product_id = product_id;
}

unfoldable pub is_among : Text → List Text → Bool
is_among id ids = exists (λ other. text_eq other id) ids

-- [...new Set(productIds)], given those that were there before.
unfoldable pub unique_ids : List Text → List Text → List Text
unique_ids seen [] = []
unique_ids seen (id ∷ ids) =
    let fresh = unique_ids (id ∷ seen) ids in
    let again = unique_ids seen ids in if is_among id seen then again else id ∷ fresh

-- refreshProducts: the jobs added. If the queue fails, which is caught, none is.
unfoldable pub refresh_products : Bool → List Text → Text → List RefreshJob
refresh_products up product_ids event_key =
    if up then map (refresh_job event_key) (unique_ids [] product_ids) else []

-- refreshOrder, of the order that was found.
unfoldable pub refresh_items : Bool → Option LoadedOrder → Text → List RefreshJob
refresh_items up none event_key = []
refresh_items up (some loaded) event_key =
    refresh_products up (map (λ (item : OrderItem). decimal item.product_id) loaded.items) event_key

unfoldable pub refresh_order : Bool → ℕ → Text → Db → List RefreshJob
refresh_order up order_id event_key db = refresh_items up (find_by_id order_id db) event_key

-- What `place` asks of the refresher: nothing for a replay or an error.
unfoldable pub placed_jobs : Bool → Outcome PlaceFailure PlacedOrder → List RefreshJob
placed_jobs up (err e) = []
placed_jobs up (ok placed) =
    if placed.replay
    then []
    else refresh_items up (some placed.loaded)
        (codes "order-" ++ (decimal placed.loaded.order.id ++ codes "-placed"))

-- The worker's commands for one product: the DEL, and the turns of the load that follows.
pub record CardRefresh : Type 0 where
  pub delete : Moment
  pub read : Moment
  pub start : ℕ
  pub turns : ℕ → Turn

-- The cards after the DEL.
unfoldable pub deleted : Text → Cards → Cards
deleted id state = record state { cards = cache_del id state.cards }

-- refresh: DEL, then get; `none` means that the fuel ran out.
unfoldable pub refresh_card : ℕ → (ℕ → Db) → CardRefresh → Text → Cards → Option (Answer × Cards)
refresh_card fuel db_at by id state =
    let loaded = get_card fuel db_at by.turns by.read by.start id (deleted id state) in
    if by.delete.up then loaded else some (err query_failed, state)

-- The jobs of the worker: of all products, or of one, if it says which.
pub data WorkerJob : Type 0 where
  refresh_all : WorkerJob
  refresh_one : Option Text → WorkerJob

unfoldable pub job_ids : Db → WorkerJob → List Text
job_ids db refresh_all = map (λ (product : Product). decimal product.id) (find_all db)
job_ids db (refresh_one (some (c ∷ cs))) = (c ∷ cs) ∷ []
job_ids db (refresh_one _) = []

-- One product after another, until a refresh fails: the error is thrown, and the queue tries the
-- job again.
unfoldable pub refresh_ids :
    ℕ
    → (ℕ → Db)
    → (Text → CardRefresh)
    → List Text
    → Cards
    → Option (Outcome CardFailure (Unit {0}) × Cards)
refresh_ids fuel db_at by [] state = some (ok tt, state)
refresh_ids fuel db_at by (id ∷ ids) state = elim (refresh_card fuel db_at (by id) id state) [
  | none ↦ none
  | some (err e, after) ↦ some (err e, after)
  | some (ok card, after) ↦ refresh_ids fuel db_at by ids after
]

-- The processor; the products of refresh_all are those at `now`.
unfoldable pub process_job :
    ℕ
    → (ℕ → Db)
    → (Text → CardRefresh)
    → ℕ
    → WorkerJob
    → Cards
    → Option (Outcome CardFailure (Unit {0}) × Cards)
process_job fuel db_at by now job state = refresh_ids fuel db_at by (job_ids (db_at now) job) state

is_among-same :
    (other id : Text) (seen : List Text)
    → text_eq other id ≡ true
    → is_among other seen ≡ is_among id seen
is_among-same other id seen h = ap (λ x. is_among x seen) ((text_eq_iff other id).0 h)

count-unique_ids :
    (id : Text) (seen ids : List Text)
    → count (λ other. text_eq other id) (unique_ids seen ids)
      ≡ (if is_among id seen then 0 else if is_among id ids then 1 else 0)
unfolding count unique_ids exists is_among
count-unique_ids id seen [] = ground arith
count-unique_ids id seen (other ∷ ids) = ground (
  arith,
  count-unique_ids id seen ids,
  count-unique_ids id (other ∷ seen) ids,
  is_among-same other id seen,
)

count-jobs :
    (id event_key : Text) (ids : List Text)
    → count (λ (job : RefreshJob). text_eq job.product_id id) (map (refresh_job event_key) ids)
      ≡ count (λ other. text_eq other id) ids
unfolding count refresh_job
count-jobs id event_key [] = refl
count-jobs id event_key (other ∷ ids) = ground (arith, count-jobs id event_key ids)

-- However often a product is among the ids, while the queue answers it gets exactly one job if it is
-- there and none if it is not.
pub refresh_products-once :
    (product_ids : List Text) (event_key id : Text)
    → count
        (λ (job : RefreshJob). text_eq job.product_id id)
        (refresh_products true product_ids event_key)
      ≡ (if is_among id product_ids then 1 else 0)
unfolding refresh_products is_among exists
refresh_products-once product_ids event_key id =
    count-jobs id event_key (unique_ids [] product_ids) ∙ count-unique_ids id [] product_ids
