-- ===== src/Entities/Rows.antt =====
-- entities/*.entity.ts: one record for each table.
use one_marketplace.Base.{ℕ, List, [], Option}
use one_marketplace.Base.Text.{Text}
use one_marketplace.Entities.Event.{OrderPlacedEvent}

pub data UserRole : Type 0 where
  buyer seller admin : UserRole

pub data OrderStatus : Type 0 where
  pending paid cancelled : OrderStatus

pub data JobStatus : Type 0 where
  waiting done failed : JobStatus

pub record User : Type 0 where
  pub id : ℕ
  pub email : Text
  pub phone : Text
  pub name : Text
  pub balance : ℕ
  pub password_hash : Option Text
  pub role : UserRole
  pub created_at : ℕ

-- `search_vector` is generated by the database and read by no code of the repository.
pub record Product : Type 0 where
  pub id : ℕ
  pub name : Text
  pub description : Text
  pub price : ℕ
  pub stock : ℕ
  pub created_at : ℕ

pub record Order : Type 0 where
  pub id : ℕ
  pub user_id : ℕ
  pub status : OrderStatus
  pub total : ℕ
  pub idempotency_key : Option Text
  pub created_at : ℕ

pub record OrderItem : Type 0 where
  pub id : ℕ
  pub order_id : ℕ
  pub product_id : ℕ
  pub quantity : ℕ
  pub unit_price : ℕ

-- `payload` holds the order's id, the one field that the code stores there.
pub record Job : Type 0 where
  pub id : ℕ
  pub queue : Text
  pub type : Text
  pub payload : Text
  pub status : JobStatus
  pub processed : ℕ
  pub attempts : ℕ
  pub last_error : Option Text
  pub worker : Option Text
  pub created_at : ℕ
  pub processed_at : Option ℕ

pub record Outbox : Type 0 where
  pub id : ℕ
  pub aggregate_type : Text
  pub aggregate_id : Text
  pub type : Text
  pub payload : OrderPlacedEvent
  pub created_at : ℕ
  pub published_at : Option ℕ
  pub attempts : ℕ

pub record ProcessedMessage : Type 0 where
  pub message_id : ℕ
  pub consumer : Text
  pub processed_at : ℕ

pub record Receipt : Type 0 where
  pub id : ℕ
  pub event_id : Text
  pub order_id : ℕ
  pub total : ℕ
  pub issued_at : ℕ

pub record RefreshToken : Type 0 where
  pub id : ℕ
  pub user_id : ℕ
  pub family_id : ℕ
  pub token_hash : Text
  pub expires_at : ℕ
  pub used_at : Option ℕ
  pub revoked_at : Option ℕ
  pub created_at : ℕ

-- The sequences count the rows that were ever inserted.
pub record Db : Type 0 where
  pub users : List User
  pub products : List Product
  pub orders : List Order
  pub order_items : List OrderItem
  pub jobs : List Job
  pub outbox : List Outbox
  pub processed_messages : List ProcessedMessage
  pub receipts : List Receipt
  pub refresh_tokens : List RefreshToken
  pub next_order : ℕ
  pub next_item : ℕ
  pub next_job : ℕ
  pub next_receipt : ℕ

abbrev pub empty_db : Db
empty_db = record {
  users = [];
  products = [];
  orders = [];
  order_items = [];
  jobs = [];
  outbox = [];
  processed_messages = [];
  receipts = [];
  refresh_tokens = [];
  next_order = 1;
  next_item = 1;
  next_job = 1;
  next_receipt = 1;
}
