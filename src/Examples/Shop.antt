-- ===== src/Examples/Shop.antt =====
-- The data of the examples: rows as src/seed.ts makes them.
use one_marketplace.Base.{ℕ, false, none, some, [], ◌∷◌}
use one_marketplace.Base.Text.{codes}
use one_marketplace.Entities.{
  User, Product, Order, Job, Outbox, Db, empty_db, OrderPlacedSource, to_order_placed_event,
  order_aggregate_type, order_placed_type, UserRole, OrderStatus, JobStatus,
}
use one_marketplace.Checkout.Input.{CheckoutInput, Context, whole}

abbrev pub pen : Product
pen = record {
  id = 1;
  name = codes "pen";
  description = [];
  price = 150;
  stock = 5;
  created_at = 1000;
}

abbrev pub ink : Product
ink = record {
  id = 2;
  name = codes "ink";
  description = [];
  price = 400;
  stock = 1;
  created_at = 1000;
}

abbrev pub ann : User
ann = record {
  id = 7;
  email = codes "ann@shop";
  phone = codes "1";
  name = codes "Ann";
  balance = 1000;
  password_hash = none;
  role = UserRole.buyer;
  created_at = 1000;
}

abbrev pub shop : Db
shop = record empty_db { products = pen ∷ ink ∷ []; users = ann ∷ [] }

abbrev pub wants : ℕ → CheckoutInput
wants quantity = record {
  user_id = 7;
  items =
      record { product_id = codes "2"; quantity = whole 1 }
      ∷ record { product_id = codes "1"; quantity = whole quantity }
      ∷ [];
  idempotency_key = some (codes "k");
}

abbrev pub noon : Context
noon = record { now = 5000; outbox_id = 99; hook_throws = false }

abbrev pub placed_order : Order
placed_order = record {
  id = 3;
  user_id = 7;
  status = OrderStatus.paid;
  total = 700;
  idempotency_key = none;
  created_at = 4000;
}

abbrev pub ordered : Db
ordered = record shop { orders = placed_order ∷ []; next_order = 4 }

abbrev pub job : ℕ → Job
job id = record {
  id = id;
  queue = codes "default";
  type = codes "send_receipt";
  payload = codes "3";
  status = JobStatus.waiting;
  processed = 0;
  attempts = 0;
  last_error = none;
  worker = none;
  created_at = 4000;
  processed_at = none;
}

abbrev pub source : OrderPlacedSource
source = record { id = codes "3"; user_id = 7; total = 700; created_at = 4000; items = [] }

abbrev pub outbox_of : ℕ → Outbox
outbox_of id = record {
  id = id;
  aggregate_type = order_aggregate_type;
  aggregate_id = codes "3";
  type = order_placed_type;
  payload = to_order_placed_event source;
  created_at = 4000;
  published_at = none;
  attempts = 0;
}
