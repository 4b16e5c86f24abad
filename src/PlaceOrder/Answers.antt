-- ===== src/PlaceOrder/Answers.antt =====
-- What an order request is answered with (services/place-order.service.ts).
use one_marketplace.Base.{
  ℕ, ◌≡◌, refl, sym, ap, subst, ◌∙◌, Bool, true, false, ◌&&◌, Option, none, some, inl, inr, ◌⊎◌, [],
  ◌∷◌, Outcome, ok, err, arith, ◌==◌, ==_iff, Bool-cases, Option-cases, Outcome-cases,
}
use one_marketplace.Base.Text.{Text}
use one_marketplace.Base.Table.{first, first-satisfies}
use one_marketplace.Entities.{Db, Order}
use one_marketplace.Checkout.Input.{CheckoutInput, CheckoutResult, Context, Fault}
use one_marketplace.Checkout.Body.{same_key, checkout}
use one_marketplace.Checkout.Failed.{checkout_unchanged}
use one_marketplace.PlaceOrder.Repository.{
  LoadedOrder, with_items, load_first, find_by_id, find_by_idempotency_key,
}
use one_marketplace.PlaceOrder.Service.{
  is_same_request, PlacedOrder, PlaceFailure, replay_of, find_existing, is_idempotency_conflict,
  created, winner_of, Meanwhile, after_checkout, place,
}

-- A replay: an order of the same user, the same key and the same lines.
pub record IsReplay (input : CheckoutInput) (placed : PlacedOrder) : Type 0 where
  pub replay : placed.replay ≡ true
  pub user : placed.loaded.order.user_id ≡ input.user_id
  pub key : same_key placed.loaded.order.idempotency_key input.idempotency_key ≡ true
  pub request : is_same_request placed.loaded input ≡ true

load_first-satisfies :
    (p : Order → Bool) (db : Db) (loaded : LoadedOrder)
    → load_first p db ≡ some loaded
    → p loaded.order ≡ true
unfolding load_first with_items
load_first-satisfies p db loaded h = elim (Option-cases (first p db.orders)) [
  | inl e ↦ absurd (ground arith)
  | inr (order, e) ↦ ground (arith, first-satisfies p db.orders e)
]

replay_of-IsReplay :
    (input : CheckoutInput) (key : Text) (db : Db) (placed : PlacedOrder)
    → input.idempotency_key ≡ some key
    → replay_of input (find_by_idempotency_key input.user_id key db) ≡ ok (some placed)
    → IsReplay input placed
unfolding replay_of
replay_of-IsReplay input key db placed k h =
    elim (Option-cases (find_by_idempotency_key input.user_id key db)) [
      | inl e ↦ absurd (ground arith)
      | inr (loaded, e) ↦ elim (Bool-cases (is_same_request loaded input)) [
        | inr f ↦ absurd (ground arith)
        | inl f ↦
            let both =
              load_first-satisfies
                (λ o. o.user_id == input.user_id && same_key o.idempotency_key (some key)) db loaded
                (unfold find_by_idempotency_key in e) in
            let answer : record { loaded = loaded; replay = true } ≡ placed = ground arith in
            subst (IsReplay input) answer (record {
              replay = refl;
              user = ground (arith, ==_iff loaded.order.user_id input.user_id, both);
              key = rw k (ground (arith, both));
              request = f;
            })
      ]
    ]

find_existing-IsReplay :
    (input : CheckoutInput) (db : Db) (placed : PlacedOrder)
    → find_existing input db ≡ ok (some placed)
    → IsReplay input placed
unfolding find_existing
find_existing-IsReplay input db placed h = elim (Option-cases input.idempotency_key) [
  | inl e ↦ absurd (ground arith)
  | inr ([], e) ↦ absurd (ground arith)
  | inr (c ∷ cs, e) ↦ replay_of-IsReplay input (c ∷ cs) db placed e (rw (e, find_existing) at h)
]

-- A placement: a checkout on what the others left made the order.
pub record IsPlacement (context : Context) (meanwhile : Meanwhile) (input : CheckoutInput) (db : Db)
    (placed : PlacedOrder) (after : Db) : Type 0 where
  pub replay : placed.replay ≡ false
  pub result : CheckoutResult
  pub made : checkout context input (meanwhile.first db) ≡ (ok result, after)
  pub loaded : find_by_id result.order_id after ≡ some placed.loaded

-- The databases after a replay, which writes nothing itself.
abbrev pub IsUntouched : Meanwhile → Db → Db → Type 0
IsUntouched meanwhile db after = (after ≡ db) ⊎ (after ≡ meanwhile.second (meanwhile.first db))

created-placed :
    (id : ℕ) (db : Db) (placed : PlacedOrder)
    → created id db ≡ ok placed
    → (placed.replay ≡ false) × (find_by_id id db ≡ some placed.loaded)
unfolding created
created-placed id db placed h = elim (Option-cases (find_by_id id db)) [
  | inl e ↦ absurd (ground arith)
  | inr (loaded, e) ↦
      let answer : record { loaded = loaded; replay = false } ≡ placed = ground arith in
      (
        sym (ap (λ (p : PlacedOrder). p.replay) answer),
        e ∙ ap (λ (p : PlacedOrder). some p.loaded) answer,
      )
]

winner_of-found :
    (e : Fault) (found : Outcome PlaceFailure (Option PlacedOrder)) (placed : PlacedOrder)
    → winner_of e found ≡ ok placed
    → found ≡ ok (some placed)
unfolding winner_of
winner_of-found e (err failure) placed h = absurd (ground arith)
winner_of-found e (ok none) placed h = absurd (ground arith)
winner_of-found e (ok (some other)) placed h = ground arith

after_checkout-answer :
    (context : Context) (meanwhile : Meanwhile) (input : CheckoutInput) (db after left : Db)
    (result : Outcome Fault CheckoutResult) (placed : PlacedOrder)
    → checkout context input (meanwhile.first db) ≡ (result, left)
    → after_checkout meanwhile input result left ≡ (ok placed, after)
    → (IsReplay input placed × IsUntouched meanwhile db after)
      ⊎ IsPlacement context meanwhile input db placed after
unfolding after_checkout
after_checkout-answer context meanwhile input db after left (ok result) placed made h =
    let (fresh, loaded) = created-placed result.order_id left placed (ap (λ r. r.0) h) in
    let same = ap (λ r. r.1) h in
    inr (record {
      replay = fresh;
      result = result;
      made = subst (λ x. checkout context input (meanwhile.first db) ≡ (ok result, x)) same made;
      loaded = subst (λ x. find_by_id result.order_id x ≡ some placed.loaded) same loaded;
    })
after_checkout-answer context meanwhile input db after left (err e) placed made h =
    elim (Bool-cases (is_idempotency_conflict e)) [
      | inr c ↦ absurd (ground arith)
      | inl c ↦
          let unchanged = checkout_unchanged context input (meanwhile.first db) left e made in
          let h' = rw (c, after_checkout) at h in
          inl (
            find_existing-IsReplay input (meanwhile.second left) placed
                (winner_of-found e _ placed (ap (λ r. r.0) h')),
            inr (sym (ap (λ r. r.1) h') ∙ ap meanwhile.second unchanged),
          )
    ]

-- An order request that is answered without an error is a replay of an order of the same user,
-- key and lines, for which nothing is written, or the order of a checkout that this request made,
-- whatever other transactions do meanwhile.
pub place-answer :
    (context : Context) (meanwhile : Meanwhile) (input : CheckoutInput) (db after : Db)
    (placed : PlacedOrder)
    → place context meanwhile input db ≡ (ok placed, after)
    → (IsReplay input placed × IsUntouched meanwhile db after)
      ⊎ IsPlacement context meanwhile input db placed after
unfolding place
place-answer context meanwhile input db after placed h =
    elim (Outcome-cases (find_existing input db)) [
      | inr (e, failed) ↦ absurd (ground arith)
      | inl (some other, found) ↦
          let h' = rw (found, place) at h in
          inl (find_existing-IsReplay input db placed (ground arith), inl (sym (ap (λ r. r.1) h')))
      | inl (none, found) ↦
          after_checkout-answer context meanwhile input db after _ _ placed refl
            (rw (found, place) at h)
    ]
