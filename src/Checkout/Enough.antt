-- ===== src/Checkout/Enough.antt =====
-- When the reservations of a checkout succeed, and what their failures mean.
use one_marketplace.Base.{
  ℕ, ◌≤◌, ◌<◌, ◌≡◌, refl, sym, ap, subst, Option, none, some, List, [], ◌∷◌, inl, inr, ok, err,
  arith, dec_le, leb, ◌==◌, Bool-cases, Option-cases, Outcome-cases, All, ==_refl,
}
use one_marketplace.Base.Text.{number}
use one_marketplace.Base.Table.{first, exists, update, first_of_exists, first-exists}
use one_marketplace.Entities.{Db, Product, PricedLine}
use one_marketplace.Checkout.Input.{
  Line, Fault, checkout_error, query_failed, product_not_found, out_of_stock,
  numeric_value_out_of_range, int4_max, int8_max,
}
use one_marketplace.Checkout.Body.{takes, lower_stock, missing, reserve, reserve_all}
use one_marketplace.Checkout.Rows.{
  product_at, DistinctIds, demand, first-takes, takes-first, product_at-update, update-DistinctIds,
}
use one_marketplace.Checkout.Stock.{reserve-Reserved}

-- A row that can give `quantity`.
abbrev pub Enough : ℕ → Option Product → Type 0
Enough quantity none = quantity ≡ 0
Enough quantity (some p) = quantity ≤ p.stock

-- A line that the validation lets through and the columns can hold.
pub record IsSized (line : Line) : Type 0 where
  pub positive : 0 < line.quantity
  pub quantity_fits : line.quantity ≤ int4_max
  pub id_fits : number line.product_id ≤ int8_max

demand_self :
    (line : Line) (lines : List Line)
    → line.quantity ≤ demand (number line.product_id) (line ∷ lines)
demand_self line lines = ground (arith, ==_refl (number line.product_id))

Enough-found :
    (line : Line) (lines : List Line) (o : Option Product)
    → 0 < line.quantity
    → Enough (demand (number line.product_id) (line ∷ lines)) o
    → (p : Product) × (o ≡ some p) × (line.quantity ≤ p.stock)
Enough-found line lines none pos h = absurd (omega (arith, demand_self line lines, h))
Enough-found line lines (some p) pos h = (p, refl, omega (arith, demand_self line lines, h))

Enough-update :
    (line : Line) (lines : List Line) (ps : List Product) (p : Product) (j : ℕ)
    → DistinctIds ps
    → first (takes (number line.product_id) line.quantity) ps ≡ some p
    → Enough (demand j (line ∷ lines)) (product_at j ps)
    → Enough (demand j lines) (
        product_at j
          (update (takes (number line.product_id) line.quantity) (lower_stock line.quantity) ps))
Enough-update line lines ps p j d e h = ground (
  arith,
  product_at-update (number line.product_id) line.quantity j ps p d e,
  first-takes (number line.product_id) line.quantity ps p d e,
)

module _ (line : Line) (db : Db) where
  abbrev after : Db
  after = record db {
    products =
        update (takes (number line.product_id) line.quantity) (lower_stock line.quantity)
          db.products;
  }

  abbrev sold_at : Product → PricedLine
  sold_at p = record {
    product_id = line.product_id;
    quantity = line.quantity;
    unit_price = p.price;
  }

  reserve_found :
      (p : Product)
      → IsSized line
      → first (takes (number line.product_id) line.quantity) db.products ≡ some p
      → reserve line db ≡ ok (sold_at p, after)
  unfolding reserve
  reserve_found p s e = ground arith

-- From distinct ids, for lines with positive quantities that the columns can hold, the
-- reservations succeed where every product has the demand of the lines.
pub reserve_all-Enough :
    (lines : List Line) (db : Db)
    → DistinctIds db.products
    → All IsSized lines
    → ((j : ℕ) → Enough (demand j lines) (product_at j db.products))
    → (priced : List PricedLine) × (db' : Db) × (reserve_all lines db ≡ ok (priced, db'))
unfolding reserve_all
reserve_all-Enough [] db d s h = ([], db, refl)
reserve_all-Enough (line ∷ lines) db d s h =
    let id = number line.product_id in
    let (p, found, fits) =
      Enough-found line lines (product_at id db.products) s.0.positive (h id) in
    let taken = takes-first id line.quantity db.products p found fits in
    let done = reserve_found line db p s.0 taken in
    let (priced, last, rest) =
      reserve_all-Enough lines (after line db) (update-DistinctIds id line.quantity db.products d)
        s.1 (λ j. Enough-update line lines db.products p j d taken (h j)) in
    (sold_at line db p ∷ priced, last, ground (arith, done, rest))

-- What a failure of the reservations says of the products.
abbrev pub Explains : List Line → List Product → Fault → Type 0
Explains lines ps (checkout_error product_not_found (some t)) = product_at (number t) ps ≡ none
Explains lines ps (checkout_error out_of_stock (some t)) =
    (p : Product) × (product_at (number t) ps ≡ some p) × (p.stock < demand (number t) lines)
Explains lines ps (query_failed numeric_value_out_of_range none) = ¬ All IsSized lines
Explains lines ps _ = ⊥

-- The UPDATE returned no row.
take_stock_fails :
    (line : Line) (lines : List Line) (ps : List Product)
    → first (takes (number line.product_id) line.quantity) ps ≡ none
    → Explains (line ∷ lines) ps (
        missing
          (exists (λ p. p.id == number line.product_id) ps)
          out_of_stock
          product_not_found
          (some line.product_id))
take_stock_fails line lines ps e =
    let id = number line.product_id in
    elim (Bool-cases (exists (λ p. p.id == id) ps)) [
      | inl there ↦
          let (p, found) = first_of_exists (λ p. p.id == id) ps there in
          rw there (p, found, short p found)
      | inr absent ↦ rw absent (first-exists (λ p. p.id == id) ps absent)
    ]
  where
    short :
        (p : Product)
        → product_at (number line.product_id) ps ≡ some p
        → p.stock < demand (number line.product_id) (line ∷ lines)
    short p found = elim (dec_le line.quantity p.stock) [
      | yes fits ↦
          absurd (cc (e, takes-first (number line.product_id) line.quantity ps p found fits))
      | no under ↦ omega (arith, demand_self line lines)
    ]

reserve_fails :
    (line : Line) (lines : List Line) (db : Db) (e : Fault)
    → reserve line db ≡ err e
    → Explains (line ∷ lines) db.products e
unfolding reserve
reserve_fails line lines db e h = elim (Bool-cases (leb line.quantity int4_max)) [
  | inr wide ↦
      subst (Explains (line ∷ lines) db.products)
        (fault (query_failed numeric_value_out_of_range none) (ground arith))
        (λ s. absurd (ground (arith, s.0.quantity_fits)))
  | inl fits ↦ elim (Bool-cases (leb (number line.product_id) int8_max)) [
    | inr wide ↦
        subst (Explains (line ∷ lines) db.products)
          (fault (query_failed numeric_value_out_of_range none) (ground arith))
          (λ s. absurd (ground (arith, s.0.id_fits)))
    | inl id_fits ↦
        elim (Option-cases (first (takes (number line.product_id) line.quantity) db.products)) [
          | inr (p, found) ↦ absurd (ground arith)
          | inl none_left ↦
              subst (Explains (line ∷ lines) db.products)
                (fault
                  (missing (exists (λ p. p.id == number line.product_id) db.products) out_of_stock
                    product_not_found (some line.product_id))
                  (ground arith))
                (take_stock_fails line lines db.products none_left)
        ]
  ]
]
  where
    fault : (f : Fault) → reserve line db ≡ err f → f ≡ e
    fault f e = cc

Explains-update :
    (line : Line) (lines : List Line) (ps : List Product) (p : Product) (e : Fault)
    → DistinctIds ps
    → first (takes (number line.product_id) line.quantity) ps ≡ some p
    → Explains lines
        (update (takes (number line.product_id) line.quantity) (lower_stock line.quantity) ps)
        e
    → Explains (line ∷ lines) ps e
Explains-update line lines ps p (checkout_error product_not_found (some t)) d f h =
    ground (arith, product_at-update (number line.product_id) line.quantity (number t) ps p d f)
Explains-update line lines ps p (checkout_error out_of_stock (some t)) d f (q, found, short) =
    let id = number line.product_id in
    elim (Bool-cases (number t == id)) [
      | inl same ↦ (
        p,
        ground (arith, first-takes id line.quantity ps p d f),
        ground (
          arith,
          first-takes id line.quantity ps p d f,
          product_at-update id line.quantity (number t) ps p d f,
        ),
      )
      | inr other ↦
          (q, ground (arith, product_at-update id line.quantity (number t) ps p d f), ground arith)
    ]
Explains-update line lines ps p (query_failed numeric_value_out_of_range none) d f h = λ s. h s.1
Explains-update line lines ps p _ d f h = absurd h

-- From distinct ids, a failure of the reservations tells the truth about the products before
-- them.
pub reserve_all-Explains :
    (lines : List Line) (db : Db) (e : Fault)
    → DistinctIds db.products
    → reserve_all lines db ≡ err e
    → Explains lines db.products e
unfolding reserve_all
reserve_all-Explains [] db e d h = absurd (ground arith)
reserve_all-Explains (line ∷ lines) db e d h = elim (Outcome-cases (reserve line db)) [
  | inr (x, failed) ↦ reserve_fails line lines db e (ground arith)
  | inl ((head, middle), done) ↦
      let r = reserve-Reserved line db middle head done in
      let products = ap (λ (x : Db). x.products) r.lowered in
      let d' =
        subst DistinctIds (sym products)
          (update-DistinctIds (number line.product_id) line.quantity db.products d) in
      let ih = reserve_all-Explains lines middle e d' (ground arith) in
      Explains-update line lines db.products r.product e d r.found (rw products at ih)
]
