-- ===== src/ProductCards/Loads.antt =====
-- That a card is answered in time and is not too old (services/product-card.service.ts).
use one_marketplace.Base.{
  ℕ, zero, suc, ◌+◌, ◌*◌, ◌≤◌, ◌<◌, ◌≡◌, refl, sym, subst, true, false, Option, none, some, inl,
  inr, ok, err, ltb, arith, All, Bool-cases,
}
use one_marketplace.Base.Text.{Text}
use one_marketplace.Entities.{Db}
use one_marketplace.ProductCards.Products.{ProductCard}
use one_marketplace.ProductCards.Cache.{Moment, cache_get}
use one_marketplace.ProductCards.Service.{
  Cards, Turn, busy, Answer, Attempt, failed, taken, occupied, try_lock, polled, take_turn,
  load_from, load_card, get_card, lock_poll_ms, lock_wait_budget_ms,
}
use one_marketplace.ProductCards.Fresh.{
  IsFresh, All-later, cache_get-IsRecent, IsPrompt, IsGood, fetch_card-IsGood, read_or_fetch-IsGood,
  released-IsGood,
}

module _ (db_at : ℕ → Db) (lag : ℕ) where
  -- The times of a turn are in the order of its commands, it sleeps for the poll, and what others do
  -- while it sleeps leaves the cache fresh.
  pub record IsTurn (turn : Turn) : Type 0 where
    pub reads : turn.now ≤ turn.read.now
    pub fetches : IsPrompt db_at lag turn.read.now turn.fetch
    pub sleeps : turn.now + lock_poll_ms ≤ turn.poll.now
    pub others :
        (state : Cards)
        → All (IsFresh db_at lag turn.now) state.cards
        → All (IsFresh db_at lag turn.poll.now) (turn.sleep state).cards

  try_lock-cards : (turn : Turn) (state : Cards) → (try_lock turn state).1.cards ≡ state.cards
  unfolding try_lock
  try_lock-cards turn state = elim (Bool-cases turn.acquire.up) [
    | inl up ↦ rw up refl
    | inr down ↦ rw down refl
  ]

  -- A loop that ends with a true answer.
  abbrev pub EndsWell : ℕ → Text → Option (Answer × Cards) → Type 0
  EndsWell start id result = (r : Answer × Cards) × (result ≡ some r) × IsGood db_at lag start id r

  polled-EndsWell :
      (start : ℕ) (at : Moment) (id : Text) (read : Option ProductCard) (state : Cards)
      (again : Option (Answer × Cards))
      → start ≤ at.now
      → cache_get at id state.cards ≡ read
      → All (IsFresh db_at lag at.now) state.cards
      → EndsWell start id again
      → EndsWell start id (polled read state again)
  unfolding polled
  polled-EndsWell start at id none state again h found fresh ends = ends
  polled-EndsWell start at id (some card) state again h found fresh ends = (
    (ok (some card), state),
    refl,
    record {
      answer = (at.now, h, cache_get-IsRecent db_at lag at id state.cards card fresh found);
      until = at.now;
      fresh = fresh;
    },
  )

  take_turn-EndsWell :
      (start : ℕ) (turn : Turn) (id : Text) (tried : Attempt) (state : Cards)
      (again : Cards → Option (Answer × Cards))
      → start ≤ turn.now
      → IsTurn turn
      → All (IsFresh db_at lag turn.now) state.cards
      → ((woken : Cards)
          → All (IsFresh db_at lag turn.poll.now) woken.cards
          → EndsWell start id (again woken))
      → EndsWell start id (take_turn db_at turn id (tried, state) again)
  unfolding take_turn
  take_turn-EndsWell start turn id failed state again h t fresh rest = (
    _,
    refl,
    fetch_card-IsGood db_at lag start turn.read.now turn.fetch id state (omega (arith, h, t.reads))
        t.fetches (All-later db_at lag turn.now turn.read.now state.cards t.reads fresh),
  )
  take_turn-EndsWell start turn id taken state again h t fresh rest = (
    _,
    refl,
    released-IsGood db_at lag start id turn.release turn.token _ (
        read_or_fetch-IsGood db_at lag start turn.read turn.fetch id _ state
          (omega (arith, h, t.reads)) t.fetches refl
          (All-later db_at lag turn.now turn.read.now state.cards t.reads fresh)),
  )
  take_turn-EndsWell start turn id occupied state again h t fresh rest =
      polled-EndsWell start turn.poll id _ (turn.sleep state) (again (turn.sleep state))
        (omega (arith, h, t.sleeps)) refl (t.others state fresh)
        (rest (turn.sleep state) (t.others state fresh))

  -- The turns with at most so much fuel left follow one another.
  abbrev pub Follows : ℕ → (ℕ → Turn) → Type 0
  Follows fuel turns =
      (n : ℕ) → n ≤ fuel → IsTurn (turns n) × (n < fuel → (turns (suc n)).poll.now ≤ (turns n).now)

  Follows-less : (fuel : ℕ) (turns : ℕ → Turn) → Follows (suc fuel) turns → Follows fuel turns
  Follows-less fuel turns follows n h =
      let (t, next) = follows n (omega (arith, h)) in (t, λ less. next (omega (arith, less)))

  -- A turn before the deadline.
  early_turn-EndsWell :
      (fuel start : ℕ) (turns : ℕ → Turn) (id : Text) (deadline : ℕ) (state : Cards)
      → IsTurn (turns fuel)
      → start ≤ (turns fuel).now
      → All (IsFresh db_at lag (turns fuel).now) state.cards
      → ltb (turns fuel).now deadline ≡ true
      → ((woken : Cards)
          → All (IsFresh db_at lag (turns fuel).poll.now) woken.cards
          → EndsWell start id (load_from fuel db_at turns id deadline woken))
      → EndsWell start id (load_from (suc fuel) db_at turns id deadline state)
  unfolding load_from
  early_turn-EndsWell fuel start turns id deadline state t h fresh early rest =
      let (tried, after) = try_lock (turns fuel) state in
      rw early (
        take_turn-EndsWell start (turns fuel) id tried after
          (λ s. load_from fuel db_at turns id deadline s) h t
          (subst (All (IsFresh db_at lag (turns fuel).now))
            (sym (try_lock-cards (turns fuel) state)) fresh)
          rest)

  late_turn-EndsWell :
      (fuel start : ℕ) (turns : ℕ → Turn) (id : Text) (deadline : ℕ) (state : Cards)
      → All (IsFresh db_at lag (turns fuel).now) state.cards
      → ltb (turns fuel).now deadline ≡ false
      → EndsWell start id (load_from (suc fuel) db_at turns id deadline state)
  unfolding load_from
  late_turn-EndsWell fuel start turns id deadline state fresh over =
      rw over
        ((err busy, state), refl, record { answer = tt; until = (turns fuel).now; fresh = fresh })

  load_from-EndsWell :
      (fuel start : ℕ) (turns : ℕ → Turn) (id : Text) (deadline : ℕ) (state : Cards)
      → Follows fuel turns
      → start ≤ (turns fuel).now
      → deadline ≤ (turns fuel).now + lock_poll_ms * fuel
      → All (IsFresh db_at lag (turns fuel).now) state.cards
      → EndsWell start id (load_from (suc fuel) db_at turns id deadline state)
  load_from-EndsWell zero start turns id deadline state follows h enough fresh =
      late_turn-EndsWell zero start turns id deadline state fresh (ground arith)
  load_from-EndsWell (suc fuel) start turns id deadline state follows h enough fresh =
      elim (Bool-cases (ltb (turns (suc fuel)).now deadline)) [
        | inr over ↦ late_turn-EndsWell (suc fuel) start turns id deadline state fresh over
        | inl early ↦
            let t = (follows (suc fuel) (omega arith)).0 in
            let next = (follows fuel (omega arith)).1 (omega arith) in
            early_turn-EndsWell (suc fuel) start turns id deadline state t h fresh early
              (λ woken kept.
                load_from-EndsWell fuel start turns id deadline woken
                  (Follows-less fuel turns follows) (omega (arith, h, t.sleeps, next))
                  (omega (arith, enough, t.sleeps, next))
                  (All-later db_at lag (turns (suc fuel)).poll.now (turns fuel).now woken.cards next
                    kept))
      ]

  -- With the turns of the loop in order, each a poll after the one before, and a cache whose cards are
  -- no older than a lifetime and the lag, 202 turns are enough for `get`: it answers with a card of
  -- the database at a time at most a lifetime and the lag before a time of the request, with no card
  -- where the database had no such product at a time of the request, or with a failure; and the cards
  -- in the cache are no older afterwards.
  pub get_card-EndsWell :
      (turns : ℕ → Turn) (at : Moment) (start : ℕ) (id : Text) (state : Cards)
      → Follows 201 turns
      → at.now ≤ start
      → start ≤ (turns 201).now
      → All (IsFresh db_at lag at.now) state.cards
      → EndsWell at.now id (get_card 202 db_at turns at start id state)
  unfolding get_card load_card
  get_card-EndsWell turns at start id state follows h begins fresh =
      polled-EndsWell at.now at id _ state _ (omega arith) refl fresh (
        load_from-EndsWell 201 at.now turns id (start + lock_wait_budget_ms) state follows
          (omega (arith, h, begins)) (omega (arith, begins))
          (All-later db_at lag at.now (turns 201).now state.cards (omega (arith, h, begins)) fresh))
