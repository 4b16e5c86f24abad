-- ===== src/PlaceOrder/Normal.antt =====
-- The normal text of a request's lines (services/place-order.service.ts) and of the items that a
-- checkout writes for them.
use one_marketplace.Base.{
  ℕ, suc, ◌≡◌, refl, sym, ap, subst, ◌∙◌, some, inl, inr, List, [], ◌∷◌, map, ok, arith, leb, All,
  Bool-cases, Option-cases, Outcome-cases,
}
use one_marketplace.Base.Text.{Text, number, decimal}
use one_marketplace.Base.Texts.{insert_text, sort_texts, join, sort_texts_swap}
use one_marketplace.Entities.{Product, PricedLine}
use one_marketplace.Checkout.Input.{JsNumber, whole, negative, fractional, CheckoutLine, Line}
use one_marketplace.Checkout.Validate.{
  positive_integer, checked_lines, insert_line, sort_lines, validate_lines,
}
use one_marketplace.Checkout.Body.{item_rows}
use one_marketplace.Checkout.Lines.{All-sort_lines}
use one_marketplace.Checkout.Stock.{Priced}
use one_marketplace.PlaceOrder.Service.{line_text, line_of, normalize_lines}

-- The text of the request is the one that the database prints for the id.
abbrev pub IsPrinted : Text → Type 0
IsPrinted id = decimal (number id) ≡ id

-- A checked line as a line of a request.
abbrev asked : Line → CheckoutLine
asked line = record { product_id = line.product_id; quantity = whole line.quantity }

abbrev asked_text : Line → Text
asked_text line = line_text (asked line)

sort_texts-insert_line :
    (line : Line) (lines : List Line)
    → sort_texts (map asked_text (insert_line line lines))
      ≡ sort_texts (map asked_text (line ∷ lines))
unfolding insert_line sort_texts
sort_texts-insert_line line [] = refl
sort_texts-insert_line line (other ∷ lines) =
    elim (Bool-cases (leb (number line.product_id) (number other.product_id))) [
      | inl e ↦ rw (e, insert_line) refl
      | inr e ↦
          rw (e, insert_line)
            (ap (insert_text (asked_text other)) (sort_texts-insert_line line lines)
              ∙ sort_texts_swap (asked_text other) (asked_text line) (map asked_text lines))
    ]

sort_texts-sort_lines :
    (lines : List Line)
    → sort_texts (map asked_text (sort_lines lines)) ≡ sort_texts (map asked_text lines)
unfolding sort_lines sort_texts
sort_texts-sort_lines [] = refl
sort_texts-sort_lines (line ∷ lines) =
    sort_texts-insert_line line (sort_lines lines)
    ∙ ap (insert_text (asked_text line)) (sort_texts-sort_lines lines)

positive_integer-whole : (q : JsNumber) (n : ℕ) → positive_integer q ≡ some n → q ≡ whole n
unfolding positive_integer
positive_integer-whole (whole m) n h = ground arith
positive_integer-whole (negative m) n h = absurd (ground arith)
positive_integer-whole fractional n h = absurd (ground arith)

-- A line that passes, and the lines after it.
record Passed (item : CheckoutLine) (items : List CheckoutLine) (lines : List Line) : Type 0 where
  head : Line
  rest : List Line
  is : lines ≡ head ∷ rest
  done : checked_lines items ≡ ok rest
  same : item ≡ asked head

checked_lines-Passed :
    (item : CheckoutLine) (items : List CheckoutLine) (lines : List Line)
    → checked_lines (item ∷ items) ≡ ok lines
    → Passed item items lines
unfolding checked_lines
checked_lines-Passed item items lines h = elim (Option-cases (positive_integer item.quantity)) [
  | inl e ↦ absurd (ground (arith, e, h))
  | inr (n, e) ↦ elim (Outcome-cases (checked_lines items)) [
    | inr (failure, f) ↦ absurd (ground (arith, e, f, h))
    | inl (rest, f) ↦ record {
      head = record { product_id = item.product_id; quantity = n };
      rest = rest;
      is = ground (arith, e, f, h);
      done = f;
      same = λ i. record {
        product_id = item.product_id;
        quantity = positive_integer-whole item.quantity n e i;
      };
    }
  ]
]

checked-texts :
    (items : List CheckoutLine) (lines : List Line)
    → checked_lines items ≡ ok lines
    → map line_text items ≡ map asked_text lines
unfolding checked_lines
checked-texts [] lines h = let is : [] ≡ lines = ground arith in ap (map asked_text) is
checked-texts (item ∷ items) lines h =
    let p = checked_lines-Passed item items lines h in
    rw p.is (λ i. line_text (p.same i) ∷ checked-texts items p.rest p.done i)

checked-IsPrinted :
    (items : List CheckoutLine) (lines : List Line)
    → checked_lines items ≡ ok lines
    → All (λ (item : CheckoutLine). IsPrinted item.product_id) items
    → All (λ (line : Line). IsPrinted line.product_id) lines
unfolding checked_lines
checked-IsPrinted [] lines h printed =
    let is : [] ≡ lines = ground arith in
    subst (All (λ (line : Line). IsPrinted line.product_id)) is tt
checked-IsPrinted (item ∷ items) lines h printed =
    let p = checked_lines-Passed item items lines h in
    subst (All (λ (line : Line). IsPrinted line.product_id)) (sym p.is) (
      subst (λ (i : CheckoutLine). IsPrinted i.product_id) p.same printed.0,
      checked-IsPrinted items p.rest p.done printed.1,
    )

items-texts :
    (products : List Product) (order_id next : ℕ) (lines : List Line) (sold : List PricedLine)
    → Priced products lines sold
    → All (λ (line : Line). IsPrinted line.product_id) lines
    → map line_text (map line_of (item_rows order_id next sold)) ≡ map asked_text lines
unfolding item_rows line_of
items-texts products order_id next [] [] p printed = refl
items-texts products order_id next [] (s ∷ sold) p printed = absurd p
items-texts products order_id next (line ∷ lines) [] p printed = absurd p
items-texts products order_id next (line ∷ lines) (s ∷ sold) ((product, found, same), p) printed =
    let id : decimal (number s.product_id) ≡ line.product_id =
      ap (λ (x : PricedLine). decimal (number x.product_id)) same ∙ printed.0 in
    let quantity : s.quantity ≡ line.quantity = ap (λ (x : PricedLine). x.quantity) same in
    let rest = items-texts products order_id (suc next) lines sold p printed.1 in
    λ i. line_text (record { product_id = id i; quantity = whole (quantity i) }) ∷ rest i

-- The items that a checkout writes for a request have the normal text of its lines, if the product
-- ids are written as the database prints them.
pub normalize-items :
    (products : List Product) (order_id next : ℕ) (items : List CheckoutLine) (lines : List Line)
    (sold : List PricedLine)
    → validate_lines items ≡ ok lines
    → Priced products lines sold
    → All (λ (item : CheckoutLine). IsPrinted item.product_id) items
    → normalize_lines (map line_of (item_rows order_id next sold)) ≡ normalize_lines items
unfolding normalize_lines validate_lines
normalize-items products order_id next [] lines sold h p printed = absurd (ground arith)
normalize-items products order_id next (item ∷ items) lines sold h p printed =
    elim (Outcome-cases (checked_lines (item ∷ items))) [
      | inr (e, failed) ↦ absurd (ground (arith, failed, h))
      | inl (checked, done) ↦
          let is : sort_lines checked ≡ lines = ground (arith, done, h) in
          let all = checked-IsPrinted (item ∷ items) checked done printed in
          let all' =
            subst (All (λ (line : Line). IsPrinted line.product_id)) is
              (All-sort_lines _ checked all) in
          ap (λ texts. join (sort_texts texts))
            (items-texts products order_id next lines sold p all')
          ∙ ap (λ ls. join (sort_texts (map asked_text ls))) (sym is)
          ∙ ap join (sort_texts-sort_lines checked)
          ∙ ap (λ texts. join (sort_texts texts)) (sym (checked-texts (item ∷ items) checked done))
    ]
