-- ===== src/Checkout/Rows.antt =====
-- The rows of the products and of the users under the conditional updates of a checkout.
use one_marketplace.Base.{
  ℕ, ◌≤◌, ◌≡◌, refl, Option, none, some, List, arith, leb, ◌==◌, if◌then◌else◌, sum_by, leb→le,
  le→leb,
}
use one_marketplace.Base.Text.{number}
use one_marketplace.Base.Table.{first, update}
use one_marketplace.Base.Keyed
use one_marketplace.Base.Keyed.{row_at, DistinctKeys, first-guarded, guarded-first}
use one_marketplace.Entities.{Product, User}
use one_marketplace.Checkout.Input.{Line}
use one_marketplace.Checkout.Body.{takes, lower_stock, pays, lower_balance}

-- The row of a product, and of a user.
abbrev pub product_at : ℕ → List Product → Option Product
product_at = row_at (λ p. p.id)

abbrev pub user_at : ℕ → List User → Option User
user_at = row_at (λ u. u.id)

-- `id` is the primary key.
abbrev pub DistinctIds : List Product → Type 0
DistinctIds = DistinctKeys (λ p. p.id)

abbrev pub DistinctUsers : List User → Type 0
DistinctUsers = DistinctKeys (λ u. u.id)

-- The quantity that the lines order of a product.
abbrev pub demand : ℕ → List Line → ℕ
demand id = sum_by (λ line. if number line.product_id == id then line.quantity else 0)

-- A product's row before and after `quantity` of it is taken.
abbrev pub Taken : ℕ → Option Product → Option Product → Type 0
Taken quantity none none = quantity ≡ 0
Taken quantity (some p) (some q) = (quantity ≤ p.stock) × (q ≡ lower_stock quantity p)
Taken quantity _ _ = ⊥

pub first-takes :
    (id quantity : ℕ) (ps : List Product) (p : Product)
    → DistinctIds ps
    → first (takes id quantity) ps ≡ some p
    → (product_at id ps ≡ some p) × (quantity ≤ p.stock)
first-takes id quantity ps p d h =
    let (found, fits) = first-guarded (λ p. p.id) id (λ p. leb quantity p.stock) ps p d h in
    (found, leb→le quantity p.stock fits)

pub takes-first :
    (id quantity : ℕ) (ps : List Product) (p : Product)
    → product_at id ps ≡ some p
    → quantity ≤ p.stock
    → first (takes id quantity) ps ≡ some p
takes-first id quantity ps p h fits =
    guarded-first (λ p. p.id) id (λ p. leb quantity p.stock) ps p h (le→leb quantity p.stock fits)

-- The update changes the row of its product and no other.
pub product_at-update :
    (id quantity j : ℕ) (ps : List Product) (p : Product)
    → DistinctIds ps
    → first (takes id quantity) ps ≡ some p
    → product_at j (update (takes id quantity) (lower_stock quantity) ps)
      ≡ (if j == id then some (lower_stock quantity p) else product_at j ps)
product_at-update id quantity j ps p d h =
    Keyed.row_at-update (λ p. p.id) (λ p. leb quantity p.stock) (lower_stock quantity) (λ p. refl)
      id j ps p d h

pub update-DistinctIds :
    (id quantity : ℕ) (ps : List Product)
    → DistinctIds ps
    → DistinctIds (update (takes id quantity) (lower_stock quantity) ps)
update-DistinctIds id quantity ps d =
    Keyed.update-DistinctKeys (λ p. p.id) (λ p. leb quantity p.stock) (lower_stock quantity)
      (λ p. refl) id ps d

-- A user's row before and after `total` is paid.
abbrev pub Charged : ℕ → Option User → Option User → Type 0
Charged total none none = total ≡ 0
Charged total (some u) (some v) = (total ≤ u.balance) × (v ≡ lower_balance total u)
Charged total _ _ = ⊥

-- What a payment that finds its user does to all rows.
pub user_at-update :
    (id total : ℕ) (us : List User) (u : User)
    → DistinctUsers us
    → first (pays id total) us ≡ some u
    → (j : ℕ)
    → Charged
        (if j == id then total else 0)
        (user_at j us)
        (user_at j (update (pays id total) (lower_balance total) us))
user_at-update id total us u d h j = ground (
  arith,
  Keyed.row_at-update (λ (v : User). v.id) (λ v. leb total v.balance) (lower_balance total)
      (λ v. refl) id j us u d h,
  first-guarded (λ (v : User). v.id) id (λ v. leb total v.balance) us u d h,
)
