-- ===== src/Checkout/Stock.antt =====
-- The stock that the reservations of a checkout take, against the demand of its lines.
use one_marketplace.Base.{
  ℕ, ◌+◌, ◌≡◌, refl, sym, ap, subst, ◌∙◌, Option, none, some, List, [], ◌∷◌, inl, inr, ok, arith,
  ◌==◌, if◌then◌else◌, Bool-cases, Option-cases, Outcome-cases,
}
use one_marketplace.Base.Text.{number}
use one_marketplace.Base.Table.{first, update}
use one_marketplace.Entities.{Db, Product, PricedLine}
use one_marketplace.Checkout.Input.{Line}
use one_marketplace.Checkout.Body.{takes, lower_stock, reserve, reserve_all}
use one_marketplace.Checkout.Rows.{
  product_at, DistinctIds, demand, Taken, first-takes, product_at-update, update-DistinctIds,
}

-- What a reservation that succeeds found and did.
pub record Reserved (line : Line) (db db' : Db) (priced : PricedLine) : Type 0 where
  pub product : Product
  pub found : first (takes (number line.product_id) line.quantity) db.products ≡ some product
  pub sold : priced ≡ record {
    product_id = line.product_id;
    quantity = line.quantity;
    unit_price = product.price;
  }
  pub lowered : db' ≡ record db {
    products =
        update
          (takes (number line.product_id) line.quantity)
          (lower_stock line.quantity)
          db.products;
  }

pub reserve-Reserved :
    (line : Line) (db db' : Db) (priced : PricedLine)
    → reserve line db ≡ ok (priced, db')
    → Reserved line db db' priced
unfolding reserve
reserve-Reserved line db db' priced h =
    elim (Option-cases (first (takes (number line.product_id) line.quantity) db.products)) [
      | inl e ↦ absurd (ground arith)
      | inr (p, e) ↦ record { product = p; found = e; sold = ground arith; lowered = ground arith }
    ]

-- The first line's reservation, and the others' after it.
record Chain (line : Line) (lines : List Line) (db db' : Db) (priced : List PricedLine)
    : Type 0 where
  head : PricedLine
  middle : Db
  tail : List PricedLine
  first_done : reserve line db ≡ ok (head, middle)
  rest_done : reserve_all lines middle ≡ ok (tail, db')
  joined : priced ≡ head ∷ tail

reserve_all-Chain :
    (line : Line) (lines : List Line) (db db' : Db) (priced : List PricedLine)
    → reserve_all (line ∷ lines) db ≡ ok (priced, db')
    → Chain line lines db db' priced
unfolding reserve_all
reserve_all-Chain line lines db db' priced h = elim (Outcome-cases (reserve line db)) [
  | inr (e, failed) ↦ absurd (ground arith)
  | inl ((head, middle), done) ↦ elim (Outcome-cases (reserve_all lines middle)) [
    | inr (e, failed) ↦ absurd (ground arith)
    | inl ((tail, last), rest) ↦ record {
      head = head;
      middle = middle;
      tail = tail;
      first_done = done;
      rest_done = ground arith;
      joined = ground arith;
    }
  ]
]

-- The lines with the prices that the products have.
abbrev pub Priced : List Product → List Line → List PricedLine → Type 0
Priced ps [] [] = Unit
Priced ps (line ∷ lines) (sold ∷ priced) =
    ((p : Product) × (product_at (number line.product_id) ps ≡ some p)
      × (sold ≡ record {
        product_id = line.product_id;
        quantity = line.quantity;
        unit_price = p.price;
      }))
    × Priced ps lines priced
Priced ps _ _ = ⊥

-- What the reservations of all lines do.
pub record AllReserved (lines : List Line) (db db' : Db) (priced : List PricedLine) : Type 0 where
  pub stock :
      (j : ℕ) → Taken (demand j lines) (product_at j db.products) (product_at j db'.products)
  pub prices : Priced db.products lines priced
  pub rest : db' ≡ record db { products = db'.products }

Taken-trans :
    (id quantity j more : ℕ) (ps : List Product) (p : Product) (after : Option Product)
    → DistinctIds ps
    → first (takes id quantity) ps ≡ some p
    → Taken more (product_at j (update (takes id quantity) (lower_stock quantity) ps)) after
    → Taken ((if id == j then quantity else 0) + more) (product_at j ps) after
Taken-trans id quantity j more ps p none d e h =
    ground (arith, product_at-update id quantity j ps p d e, first-takes id quantity ps p d e)
Taken-trans id quantity j more ps p (some q) d e h =
    ground (arith, product_at-update id quantity j ps p d e, first-takes id quantity ps p d e)

Priced-update :
    (id quantity : ℕ) (ps : List Product) (p : Product) (lines : List Line)
    (priced : List PricedLine)
    → DistinctIds ps
    → first (takes id quantity) ps ≡ some p
    → Priced (update (takes id quantity) (lower_stock quantity) ps) lines priced
    → Priced ps lines priced
Priced-update id quantity ps p [] [] d e h = tt
Priced-update id quantity ps p [] (sold ∷ priced) d e h = h
Priced-update id quantity ps p (line ∷ lines) [] d e h = h
Priced-update id quantity ps p (line ∷ lines) (sold ∷ priced) d e ((q, found, price), h) = (
  elim (Bool-cases (number line.product_id == id)) [
    | inl same ↦ (
      p,
      ground (arith, first-takes id quantity ps p d e),
      ground (arith, product_at-update id quantity (number line.product_id) ps p d e),
    )
    | inr other ↦
        (q, ground (arith, product_at-update id quantity (number line.product_id) ps p d e), price)
  ],
  Priced-update id quantity ps p lines priced d e h,
)

Taken-refl : (o : Option Product) → Taken 0 o o
Taken-refl none = refl
Taken-refl (some p) = (omega arith, ground arith)

AllReserved_none :
    (j : ℕ) (db db' : Db)
    → db.products ≡ db'.products
    → Taken 0 (product_at j db.products) (product_at j db'.products)
AllReserved_none j db db' e = rw (← e) (Taken-refl (product_at j db.products))

AllReserved_empty :
    (priced : List PricedLine) (db db' : Db) → reserve_all [] db ≡ ok (priced, db') → [] ≡ priced
unfolding reserve_all
AllReserved_empty priced db db' h = ground arith

-- From distinct ids, reservations that succeed take from each product the demand of the lines, at
-- the prices that the products had, and touch nothing else.
pub reserve_all-AllReserved :
    (lines : List Line) (db db' : Db) (priced : List PricedLine)
    → DistinctIds db.products
    → reserve_all lines db ≡ ok (priced, db')
    → AllReserved lines db db' priced
unfolding reserve_all
reserve_all-AllReserved [] db db' priced d h = record {
  stock = λ j. AllReserved_none j db db' (ground arith);
  prices = rw (← AllReserved_empty priced db db' h) tt;
  rest = ground arith;
}
reserve_all-AllReserved (line ∷ lines) db db' priced d h =
    let c = reserve_all-Chain line lines db db' priced h in
    let r = reserve-Reserved line db c.middle c.head c.first_done in
    let products = ap (λ (x : Db). x.products) r.lowered in
    let id = number line.product_id in
    let d' = subst DistinctIds (sym products) (update-DistinctIds id line.quantity db.products d) in
    let ih = reserve_all-AllReserved lines c.middle db' c.tail d' c.rest_done in
    record {
      stock = λ j.
          Taken-trans id line.quantity j (demand j lines) db.products r.product
            (product_at j db'.products) d r.found (rw products at ih.stock j);
      prices = rw c.joined (
        (r.product, (first-takes id line.quantity db.products r.product d r.found).0, r.sold),
        Priced-update id line.quantity db.products r.product lines c.tail d r.found
            (rw products at ih.prices),
      );
      rest = ih.rest ∙ ap (λ (x : Db). record x { products = db'.products }) r.lowered;
    }
