-- ===== src/ProductCards/Service.antt =====
-- services/product-card.service.ts: ProductCardService. What Redis, the clock, the random values and
-- other processes do in a turn of the loop is an argument.
use one_marketplace.Base.{
  ℕ, zero, suc, ◌+◌, Option, none, some, List, Outcome, ok, err, ltb, if◌then◌else◌,
}
use one_marketplace.Base.Text.{Text}
use one_marketplace.Entities.{Db}
use one_marketplace.ProductCards.Products.{ProductCard, find_card}
use one_marketplace.ProductCards.Cache.{Cached, Moment, cache_get, cache_set}
use one_marketplace.ProductCards.Lock.{Lock, acquire_lock, release_lock}

abbrev pub lock_ttl_ms : ℕ
lock_ttl_ms = 10000

abbrev pub lock_wait_budget_ms : ℕ
lock_wait_budget_ms = 5000

abbrev pub lock_poll_ms : ℕ
lock_poll_ms = 25

-- 300 + Math.floor(Math.random() * 61): `jitter` is at most 60.
unfoldable pub product_card_ttl : ℕ → ℕ
product_card_ttl jitter = 300 + jitter

-- The Redis of the cache: the cards, and the lock of the product.
pub record Cards : Type 0 where
  pub cards : List Cached
  pub lock : Option Lock

-- A read of the database at `read_at`, and the write to the cache that follows it; `between` is what
-- others do to the cache until then.
pub record Fetch : Type 0 where
  pub read_at : ℕ
  pub between : List Cached → List Cached
  pub writing : Moment
  pub jitter : ℕ

-- A turn of the loop of `load`: the times of its commands, the token of its attempt, and what others
-- do while it sleeps.
pub record Turn : Type 0 where
  pub now : ℕ
  pub acquire : Moment
  pub token : ℕ
  pub read : Moment
  pub fetch : Fetch
  pub release : Moment
  pub sleep : Cards → Cards
  pub poll : Moment

pub data CardFailure : Type 0 where
  busy query_failed : CardFailure

abbrev pub Answer : Type 0
Answer = Outcome CardFailure (Option ProductCard)

-- By the row that the query found.
unfoldable pub fetched :
    Fetch → Text → Outcome (Unit {0}) (Option ProductCard) → Cards → Answer × Cards
fetched by id (err e) state = (err query_failed, state)
fetched by id (ok none) state = (ok none, state)
fetched by id (ok (some card)) state = (
  ok (some card),
  record state {
    cards = cache_set by.writing id card (product_card_ttl by.jitter) (by.between state.cards);
  },
)

unfoldable pub fetch_card : (ℕ → Db) → Fetch → Text → Cards → Answer × Cards
fetch_card db_at by id state = fetched by id (find_card id (db_at by.read_at)) state

-- What was read of the cache, or else what is fetched.
unfoldable pub read_or_fetch : (ℕ → Db) → Fetch → Text → Option ProductCard → Cards → Answer × Cards
read_or_fetch db_at by id (some card) state = (ok (some card), state)
read_or_fetch db_at by id none state = fetch_card db_at by id state

-- releaseLock(...).catch(() => false)
unfoldable pub released : Moment → ℕ → Answer × Cards → Answer × Cards
released at token (answer, state) = (
  answer,
  (if at.up then record state { lock = (release_lock at.now token state.lock).1 } else state),
)

-- acquireLock: it fails, the lock is taken, or it is someone else's.
pub data Attempt : Type 0 where
  failed taken occupied : Attempt

unfoldable pub try_lock : Turn → Cards → Attempt × Cards
try_lock turn state =
    let (acquired, lock) = acquire_lock turn.acquire.now turn.token lock_ttl_ms state.lock in
    if turn.acquire.up
    then ((if acquired then taken else occupied), record state { lock = lock })
    else (failed, state)

-- What follows the sleep: the card that was polled, or the rest of the loop.
unfoldable pub polled :
    Option ProductCard → Cards → Option (Answer × Cards) → Option (Answer × Cards)
polled (some card) state again = some (ok (some card), state)
polled none state again = again

-- A turn by the outcome of its attempt; `again` is the rest of the loop.
unfoldable pub take_turn :
    (ℕ → Db)
    → Turn
    → Text
    → Attempt × Cards
    → (Cards → Option (Answer × Cards))
    → Option (Answer × Cards)
take_turn db_at turn id (failed, state) again = some (fetch_card db_at turn.fetch id state)
take_turn db_at turn id (taken, state) again = some (
    released turn.release turn.token
      (read_or_fetch db_at turn.fetch id (cache_get turn.read id state.cards) state))
take_turn db_at turn id (occupied, state) again =
    let woken = turn.sleep state in polled (cache_get turn.poll id woken.cards) woken (again woken)

-- The loop of `load`: `turns` are its turns by the fuel left, and `none` means that the fuel ran out.
unfoldable pub load_from : ℕ → (ℕ → Db) → (ℕ → Turn) → Text → ℕ → Cards → Option (Answer × Cards)
load_from zero db_at turns id deadline state = none
load_from (suc fuel) db_at turns id deadline state =
    let turn = turns fuel in
    let next =
      take_turn db_at turn id (try_lock turn state)
        (λ s. load_from fuel db_at turns id deadline s) in
    if ltb turn.now deadline then next else some (err busy, state)

unfoldable pub load_card : ℕ → (ℕ → Db) → (ℕ → Turn) → Text → ℕ → Cards → Option (Answer × Cards)
load_card fuel db_at turns id start state =
    load_from fuel db_at turns id (start + lock_wait_budget_ms) state

-- `start` is the time at which `load` begins.
unfoldable pub get_card :
    ℕ → (ℕ → Db) → (ℕ → Turn) → Moment → ℕ → Text → Cards → Option (Answer × Cards)
get_card fuel db_at turns at start id state =
    polled (cache_get at id state.cards) state (load_card fuel db_at turns id start state)
