-- ===== src/ProductCards/Fresh.antt =====
-- How old the cards in the cache and the cards answered are (services/product-card.service.ts).
use one_marketplace.Base.{
  ℕ, ◌+◌, ◌≤◌, ◌≡◌, refl, ◌&&◌, Option, none, some, inl, inr, List, [], ◌∷◌, Outcome, ok, err, ltb,
  arith, All, All-imp, Bool-cases,
}
use one_marketplace.Base.Text.{Text, text_eq, text_eq_iff}
use one_marketplace.Base.Table.{select}
use one_marketplace.Entities.{Db}
use one_marketplace.ProductCards.Products.{ProductCard, find_card}
use one_marketplace.ProductCards.Cache.{Cached, Moment, live_card, cache_get, cache_del, cache_set}
use one_marketplace.ProductCards.Service.{
  Cards, Fetch, Answer, product_card_ttl, fetched, fetch_card, read_or_fetch, released,
}

-- The longest that a card lasts in the cache.
abbrev pub max_ttl_ms : ℕ
max_ttl_ms = 360000

-- `db_at` is the database at each time, and `lag` bounds the time from a read of it to the write of the
-- card to the cache.
module _ (db_at : ℕ → Db) (lag : ℕ) where
  -- The entry is the card of the database at a time before `now`, and does not outlive it by more
  -- than its lifetime and the lag.
  pub record IsFresh (now : ℕ) (entry : Cached) : Type 0 where
    pub at : ℕ
    pub shown : find_card entry.id (db_at at) ≡ ok (some entry.card)
    pub past : at ≤ now
    pub bounded : entry.expires_at ≤ at + (max_ttl_ms + lag)

  IsFresh-later :
      (now later : ℕ) (entry : Cached) → now ≤ later → IsFresh now entry → IsFresh later entry
  IsFresh-later now later entry h f = record {
    at = f.at;
    shown = f.shown;
    past = omega (arith, f.past, h);
    bounded = f.bounded;
  }

  pub All-later :
      (now later : ℕ) (cache : List Cached)
      → now ≤ later
      → All (IsFresh now) cache
      → All (IsFresh later) cache
  All-later now later cache h = All-imp (λ entry. IsFresh-later now later entry h) cache

  -- A card of the database at a time that is at most so long before `seen`.
  pub record IsRecent (id : Text) (card : ProductCard) (seen : ℕ) : Type 0 where
    pub at : ℕ
    pub shown : find_card id (db_at at) ≡ ok (some card)
    pub past : at ≤ seen
    pub recent : seen ≤ at + (max_ttl_ms + lag)

  live_card-IsRecent :
      (now : ℕ) (id : Text) (cache : List Cached) (card : ProductCard)
      → All (IsFresh now) cache
      → live_card now id cache ≡ some card
      → IsRecent id card now
  unfolding live_card
  live_card-IsRecent now id [] card fresh h = absurd (ground arith)
  live_card-IsRecent now id (entry ∷ entries) card fresh h =
      elim (Bool-cases (text_eq entry.id id && ltb now entry.expires_at)) [
        | inr other ↦ live_card-IsRecent now id entries card fresh.1 (ground (arith, other, h))
        | inl found ↦
            let same = (text_eq_iff entry.id id).0 (ground (arith, found)) in
            let is : entry.card ≡ card = ground (arith, found, h) in
            let f = fresh.0 in
            record {
              at = f.at;
              shown = rw (← same, ← is) f.shown;
              past = f.past;
              recent = ground (arith, found, f.bounded);
            }
      ]

  pub cache_get-IsRecent :
      (at : Moment) (id : Text) (cache : List Cached) (card : ProductCard)
      → All (IsFresh at.now) cache
      → cache_get at id cache ≡ some card
      → IsRecent id card at.now
  unfolding cache_get
  cache_get-IsRecent at id cache card fresh h = elim (Bool-cases at.up) [
    | inl up ↦ live_card-IsRecent at.now id cache card fresh (ground (arith, up, h))
    | inr down ↦ absurd (ground (arith, down, h))
  ]

  pub cache_del-IsFresh :
      (now : ℕ) (id : Text) (cache : List Cached)
      → All (IsFresh now) cache
      → All (IsFresh now) (cache_del id cache)
  unfolding cache_del select
  cache_del-IsFresh now id [] fresh = tt
  cache_del-IsFresh now id (entry ∷ entries) fresh = elim (Bool-cases (text_eq entry.id id)) [
    | inl same ↦ rw same (cache_del-IsFresh now id entries fresh.1)
    | inr other ↦ rw other (fresh.0, cache_del-IsFresh now id entries fresh.1)
  ]

  cache_set-IsFresh :
      (at : Moment) (id : Text) (card : ProductCard) (jitter read_at : ℕ) (cache : List Cached)
      → find_card id (db_at read_at) ≡ ok (some card)
      → read_at ≤ at.now
      → at.now ≤ read_at + lag
      → jitter ≤ 60
      → All (IsFresh at.now) cache
      → All (IsFresh at.now) (cache_set at id card (product_card_ttl jitter) cache)
  unfolding cache_set product_card_ttl
  cache_set-IsFresh at id card jitter read_at cache shown past soon small fresh =
      elim (Bool-cases at.up) [
        | inr down ↦ rw down fresh
        | inl up ↦ rw up (
          record { at = read_at; shown = shown; past = past; bounded = omega arith },
          cache_del-IsFresh at.now id cache fresh,
        )
      ]

  -- What others do to the cache by `later` leaves it fresh.
  abbrev pub Keeps : ℕ → ℕ → (List Cached → List Cached) → Type 0
  Keeps now later f =
      (cache : List Cached) → All (IsFresh now) cache → All (IsFresh later) (f cache)

  -- The times of a fetch after `now`.
  pub record IsPrompt (now : ℕ) (by : Fetch) : Type 0 where
    pub begins : now ≤ by.read_at
    pub writes : by.read_at ≤ by.writing.now
    pub soon : by.writing.now ≤ by.read_at + lag
    pub small : by.jitter ≤ 60
    pub others : Keeps by.read_at by.writing.now by.between

  -- What an answer says: a card at most so old, or that there was no such product at a time of the
  -- request, or a failure.
  abbrev pub IsTrue : ℕ → Text → Answer → Type 0
  IsTrue start id (err e) = Unit
  IsTrue start id (ok none) = (at : ℕ) × (start ≤ at) × (find_card id (db_at at) ≡ ok none)
  IsTrue start id (ok (some card)) = (seen : ℕ) × (start ≤ seen) × IsRecent id card seen

  -- A true answer, and the cache still fresh.
  pub record IsGood (start : ℕ) (id : Text) (r : Answer × Cards) : Type 0 where
    pub answer : IsTrue start id r.0
    pub until : ℕ
    pub fresh : All (IsFresh until) r.1.cards

  fetched-IsGood :
      (start now : ℕ) (by : Fetch) (id : Text) (row : Outcome (Unit {0}) (Option ProductCard))
      (state : Cards)
      → start ≤ now
      → IsPrompt now by
      → find_card id (db_at by.read_at) ≡ row
      → All (IsFresh now) state.cards
      → IsGood start id (fetched by id row state)
  unfolding fetched
  fetched-IsGood start now by id (err e) state h prompt found fresh = record {
    answer = tt;
    until = now;
    fresh = fresh;
  }
  fetched-IsGood start now by id (ok none) state h prompt found fresh = record {
    answer = (by.read_at, omega (arith, h, prompt.begins), found);
    until = now;
    fresh = fresh;
  }
  fetched-IsGood start now by id (ok (some card)) state h prompt found fresh = record {
    answer = (
      by.read_at,
      omega (arith, h, prompt.begins),
      record { at = by.read_at; shown = found; past = omega arith; recent = omega arith },
    );
    until = by.writing.now;
    fresh =
        cache_set-IsFresh by.writing id card by.jitter by.read_at (by.between state.cards) found
          prompt.writes prompt.soon prompt.small
          (prompt.others state.cards (All-later now by.read_at state.cards prompt.begins fresh));
  }

  pub fetch_card-IsGood :
      (start now : ℕ) (by : Fetch) (id : Text) (state : Cards)
      → start ≤ now
      → IsPrompt now by
      → All (IsFresh now) state.cards
      → IsGood start id (fetch_card db_at by id state)
  unfolding fetch_card
  fetch_card-IsGood start now by id state h prompt fresh =
      fetched-IsGood start now by id (find_card id (db_at by.read_at)) state h prompt refl fresh

  pub read_or_fetch-IsGood :
      (start : ℕ) (at : Moment) (by : Fetch) (id : Text) (read : Option ProductCard) (state : Cards)
      → start ≤ at.now
      → IsPrompt at.now by
      → cache_get at id state.cards ≡ read
      → All (IsFresh at.now) state.cards
      → IsGood start id (read_or_fetch db_at by id read state)
  unfolding read_or_fetch
  read_or_fetch-IsGood start at by id none state h prompt found fresh =
      fetch_card-IsGood start at.now by id state h prompt fresh
  read_or_fetch-IsGood start at by id (some card) state h prompt found fresh = record {
    answer = (at.now, h, cache_get-IsRecent at id state.cards card fresh found);
    until = at.now;
    fresh = fresh;
  }

  pub released-IsGood :
      (start : ℕ) (id : Text) (at : Moment) (token : ℕ) (r : Answer × Cards)
      → IsGood start id r
      → IsGood start id (released at token r)
  unfolding released
  released-IsGood start id at token (answer, state) g = record {
    answer = g.answer;
    until = g.until;
    fresh = elim (Bool-cases at.up) [ inl up ↦ rw up g.fresh | inr down ↦ rw down g.fresh ];
  }
