-- ===== src/Examples/Cards.antt =====
-- The card of a product: its lock, and a load that finds the lock free.
use one_marketplace.Base.{
  ℕ, ◌+◌, ◌*◌, ◌-◌, ◌≡◌, refl, true, false, none, List, [], ◌∷◌, arith, All, if◌then◌else◌,
}
use one_marketplace.Base.Text.{Text, codes, text_eq}
use one_marketplace.Base.Table.{count}
use one_marketplace.Entities.{Db}
use one_marketplace.ProductCards.{Turn, get_card}
use one_marketplace.ProductCards.Cache.{Moment}
use one_marketplace.ProductCards.Lock.{
  Use, acquires, releases, IsForeign, acquire_lock, release_lock, use_all, lock-IsHeld, live_lock,
  set_if_none,
}
use one_marketplace.ProductCards.Fresh.{All-later}
use one_marketplace.ProductCards.Loads.{Follows, EndsWell, get_card-EndsWell}
use one_marketplace.ProductCards.Queue.{
  RefreshJob, is_among, refresh_products, refresh_products-once,
}
use one_marketplace.Examples.Shop.{shop}

abbrev uses : List Use
uses = acquires 200 2 10000 ∷ releases 300 2 ∷ []

uses-IsForeign : All (IsForeign 1 10100) uses
uses-IsForeign = (omega arith, ((omega arith, refl), tt))

acquired : (acquire_lock 100 1 10000 none).0 ≡ true
unfolding acquire_lock set_if_none live_lock
acquired = refl

lock-IsHeld_example :
    ((acquire_lock 400 3 10000 (use_all uses (acquire_lock 100 1 10000 none).1)).0 ≡ false)
    × (release_lock 400 1 (use_all uses (acquire_lock 100 1 10000 none).1) ≡ (true, none))
lock-IsHeld_example =
    lock-IsHeld 100 1 10000 400 3 10000 none uses acquired uses-IsForeign (omega arith)

abbrev db_at : ℕ → Db
db_at time = shop

-- The time of the turn at which so much fuel is left.
abbrev time : ℕ → ℕ
time fuel = 10000 - 25 * fuel

abbrev moment : ℕ → Moment
moment now = record { now = now; up = true }

abbrev turns : ℕ → Turn
turns fuel = record {
  now = time fuel;
  acquire = moment (time fuel);
  token = fuel;
  read = moment (time fuel);
  fetch = record {
    read_at = time fuel;
    between = λ c. c;
    writing = moment (time fuel);
    jitter = 30;
  };
  release = moment (time fuel);
  sleep = λ state. state;
  poll = moment (time fuel + 25);
}

turns-follow : Follows db_at 10 201 turns
turns-follow n h = (
  record {
    reads = omega arith;
    fetches = record {
      begins = omega arith;
      writes = omega arith;
      soon = omega arith;
      small = omega arith;
      others = λ cache fresh. fresh;
    };
    sleeps = omega arith;
    others =
        λ state fresh. All-later db_at 10 (time n) (time n + 25) state.cards (omega arith) fresh;
  },
  λ less. omega (arith, h, less),
)

get_card-EndsWell_example :
    EndsWell db_at 10 4900
      (codes "2")
      (get_card 202 db_at turns (moment 4900) 4910 (codes "2") (record { cards = []; lock = none }))
get_card-EndsWell_example =
    get_card-EndsWell db_at 10 turns (moment 4900) 4910 (codes "2")
      (record { cards = []; lock = none }) turns-follow (omega arith) (omega arith) tt

abbrev product_ids : List Text
product_ids = codes "1" ∷ codes "2" ∷ codes "1" ∷ []

refresh_products-once_example :
    count
      (λ (job : RefreshJob). text_eq job.product_id (codes "1"))
      (refresh_products true product_ids (codes "order-3-placed"))
    ≡ (if is_among (codes "1") product_ids then 1 else 0)
refresh_products-once_example =
    refresh_products-once product_ids (codes "order-3-placed") (codes "1")
