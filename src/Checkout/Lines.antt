-- ===== src/Checkout/Lines.antt =====
-- What the validation makes of the lines of a request.
use one_marketplace.Base.{
  ℕ, ◌+◌, ◌≤◌, ◌<◌, ◌≡◌, refl, ◌∙◌, List, [], ◌∷◌, inl, inr, ok, err, arith, dec_lt, leb, ◌==◌,
  if◌then◌else◌, sum_by, Bool-cases, Outcome-cases, All, ◌⊎◌,
}
use one_marketplace.Base.Text.{number}
use one_marketplace.Checkout.Input.{
  JsNumber, whole, CheckoutLine, Line, Fault, items_empty, quantity_not_positive,
}
use one_marketplace.Checkout.Validate.{checked_lines, insert_line, sort_lines, validate_lines}
use one_marketplace.Checkout.Rows.{demand}

-- The quantity that a request asks for.
abbrev pub units : JsNumber → ℕ
units (whole n) = n
units _ = 0

abbrev pub requested : ℕ → List CheckoutLine → ℕ
requested id = sum_by (λ item. if number item.product_id == id then units item.quantity else 0)

-- Ascending product ids, the order in which the rows are locked.
abbrev pub LeadsOrdered : ℕ → List Line → Type 0
LeadsOrdered least [] = Unit
LeadsOrdered least (line ∷ lines) =
    (least ≤ number line.product_id) × LeadsOrdered (number line.product_id) lines

abbrev pub IsOrdered : List Line → Type 0
IsOrdered = LeadsOrdered 0

abbrev pub IsPositive : Line → Type 0
IsPositive line = 0 < line.quantity

insert_line-LeadsOrdered :
    (least : ℕ) (line : Line) (lines : List Line)
    → least ≤ number line.product_id
    → LeadsOrdered least lines
    → LeadsOrdered least (insert_line line lines)
unfolding insert_line
insert_line-LeadsOrdered least line [] h o = (h, tt)
insert_line-LeadsOrdered least line (other ∷ lines) h o =
    ground (arith, insert_line-LeadsOrdered (number other.product_id) line lines)

sort_lines-IsOrdered : (lines : List Line) → IsOrdered (sort_lines lines)
unfolding sort_lines
sort_lines-IsOrdered [] = tt
sort_lines-IsOrdered (line ∷ lines) =
    insert_line-LeadsOrdered 0 line (sort_lines lines) (omega arith) (sort_lines-IsOrdered lines)

sum_by-insert_line :
    (f : Line → ℕ) (line : Line) (lines : List Line)
    → sum_by f (insert_line line lines) ≡ f line + sum_by f lines
unfolding insert_line
sum_by-insert_line f line [] = refl
sum_by-insert_line f line (other ∷ lines) = ground (arith, sum_by-insert_line f line lines)

sum_by-sort_lines :
    (f : Line → ℕ) (lines : List Line) → sum_by f (sort_lines lines) ≡ sum_by f lines
unfolding sort_lines
sum_by-sort_lines f [] = refl
sum_by-sort_lines f (line ∷ lines) =
    omega (arith, sum_by-insert_line f line (sort_lines lines), sum_by-sort_lines f lines)

All-insert_line :
    (P : Line → Type 0) (line : Line) (lines : List Line)
    → P line
    → All P lines
    → All P (insert_line line lines)
unfolding insert_line
All-insert_line P line [] h hs = (h, tt)
All-insert_line P line (other ∷ lines) h hs =
    elim (Bool-cases (leb (number line.product_id) (number other.product_id))) [
      | inl e ↦ rw (e, insert_line) (h, hs)
      | inr e ↦ rw (e, insert_line) (hs.0, All-insert_line P line lines h hs.1)
    ]

pub All-sort_lines :
    (P : Line → Type 0) (lines : List Line) → All P lines → All P (sort_lines lines)
unfolding sort_lines
All-sort_lines P [] h = tt
All-sort_lines P (line ∷ lines) h =
    All-insert_line P line (sort_lines lines) h.0 (All-sort_lines P lines h.1)

-- The lines of a request that passes, before they are sorted.
record Checked (items : List CheckoutLine) (lines : List Line) : Type 0 where
  amounts : (id : ℕ) → demand id lines ≡ requested id items
  positive : All IsPositive lines

checked_lines-Checked :
    (items : List CheckoutLine) (lines : List Line)
    → checked_lines items ≡ ok lines
    → Checked items lines
unfolding checked_lines
checked_lines-Checked [] [] h = record { amounts = λ id. refl; positive = tt }
checked_lines-Checked [] (line ∷ lines) h = absurd (ground arith)
checked_lines-Checked (item ∷ items) [] h = absurd (ground arith)
checked_lines-Checked (item ∷ items) (line ∷ lines) h = elim (Outcome-cases (checked_lines items)) [
  | inr (e, failed) ↦ absurd (ground arith)
  | inl (rest, done) ↦
      let c = checked_lines-Checked items rest done in
      record { amounts = λ id. ground (arith, c.amounts id); positive = ground (arith, c.positive) }
]

-- What is known of lines that pass the validation.
pub record ValidLines (items : List CheckoutLine) (lines : List Line) : Type 0 where
  pub amounts : (id : ℕ) → demand id lines ≡ requested id items
  pub positive : All IsPositive lines
  pub ordered : IsOrdered lines

-- Lines that pass order what was requested, in positive quantities and ascending product ids.
pub validate_lines-ValidLines :
    (items : List CheckoutLine) (lines : List Line)
    → validate_lines items ≡ ok lines
    → ValidLines items lines
unfolding validate_lines
validate_lines-ValidLines [] lines h = absurd (ground arith)
validate_lines-ValidLines (item ∷ items) lines h =
    elim (Outcome-cases (checked_lines (item ∷ items))) [
      | inr (e, failed) ↦ absurd (ground arith)
      | inl (rest, done) ↦
          let c = checked_lines-Checked (item ∷ items) rest done in
          let e : sort_lines rest ≡ lines = ground arith in
          rw (← e) (record {
            amounts = λ id. sum_by-sort_lines _ rest ∙ c.amounts id;
            positive = All-sort_lines IsPositive rest c.positive;
            ordered = sort_lines-IsOrdered rest;
          })
    ]

-- A quantity that is an integer above zero.
abbrev pub IsWhole : CheckoutLine → Type 0
IsWhole item = 0 < units item.quantity

abbrev Accepted : List CheckoutLine → Type 0
Accepted items = All IsWhole items × ((lines : List Line) × (checked_lines items ≡ ok lines))

abbrev Refused : List CheckoutLine → Type 0
Refused items = (¬ All IsWhole items) × (checked_lines items ≡ err quantity_not_positive)

Accepted-cons :
    (item : CheckoutLine) (items : List CheckoutLine)
    → 0 < units item.quantity
    → Accepted items
    → Accepted (item ∷ items)
unfolding checked_lines
Accepted-cons item items pos (all, (lines, done)) = (
  (pos, all),
  (record { product_id = item.product_id; quantity = units item.quantity } ∷ lines, ground arith),
)

checked_lines-cases : (items : List CheckoutLine) → Accepted items ⊎ Refused items
unfolding checked_lines
checked_lines-cases [] = inl (tt, ([], refl))
checked_lines-cases (item ∷ items) = elim (dec_lt 0 (units item.quantity)) [
  | no zero_or_less ↦ inr (λ h. zero_or_less h.0, ground arith)
  | yes pos ↦ elim (checked_lines-cases items) [
    | inl accepted ↦ inl (Accepted-cons item items pos accepted)
    | inr (some_bad, failed) ↦ inr (λ h. some_bad h.1, ground arith)
  ]
]

-- The validation fails on no lines, on a quantity that is no positive integer, and on nothing else.
pub validate_lines_fails :
    (items : List CheckoutLine) (e : Fault)
    → validate_lines items ≡ err e
    → ((items ≡ []) × (e ≡ items_empty)) ⊎ ((¬ All IsWhole items) × (e ≡ quantity_not_positive))
unfolding validate_lines
validate_lines_fails [] e h = inl (refl, ground arith)
validate_lines_fails (item ∷ items) e h = elim (checked_lines-cases (item ∷ items)) [
  | inl (all, (lines, done)) ↦ absurd (ground arith)
  | inr (some_bad, failed) ↦ inr (some_bad, ground arith)
]

-- A request with lines, all of them in positive integers, passes.
validate_lines_passes :
    (item : CheckoutLine) (items : List CheckoutLine)
    → All IsWhole (item ∷ items)
    → (lines : List Line) × (validate_lines (item ∷ items) ≡ ok lines)
unfolding validate_lines
validate_lines_passes item items h = elim (checked_lines-cases (item ∷ items)) [
  | inl (all, (lines, done)) ↦ (sort_lines lines, ground arith)
  | inr (some_bad, failed) ↦ absurd (some_bad h)
]
