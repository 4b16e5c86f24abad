-- ===== src/Idempotency/History.antt =====
-- What the answers of services/idempotency.service.ts are by the requests of before, without a Map.
use one_marketplace.Base.{
  ◌≡◌, refl, sym, ap, subst, ◌∙◌, true, false, Option, none, some, inl, inr, List, [], ◌∷◌, Outcome,
  ok, err, Bool-cases, Outcome-cases, if◌then◌else◌,
}
use one_marketplace.Base.Text.{Text, text_eq, text_eq_iff}
use one_marketplace.Idempotency.Json.{Json}
use one_marketplace.Idempotency.Service.{
  create_fingerprint, IdempotencyRecord, Records, get_idempotency_record, save_idempotency_record,
  IdempotencyResult, Refusal, key_reused, not_created, replay_record, conclude_creation,
  answer_by_record, handle_idempotency,
}

-- A request, and what creating its resource would settle to.
pub record Request (E T : Type 0) : Type 0 where
  pub key : Text
  pub body : Json
  pub settled : Outcome E T

abbrev pub Answer : Type 0 → Type 0 → Type 0
Answer E T = Outcome (Refusal E) (IdempotencyResult T)

abbrev or_else : {A : Type 0} → Option A → Option A → Option A
or_else (some found) other = some found
or_else none other = other

or_else-none : {A : Type 0} (o : Option A) → or_else o none ≡ o
or_else-none none = refl
or_else-none (some a) = refl

or_else-some : {A : Type 0} (o other : Option A) {a : A} → o ≡ some a → or_else o other ≡ o
or_else-some none other h = cc
or_else-some (some b) other h = refl

module _ {E T : Type 0} where
  unfoldable pub creation : Json → Outcome E T → Option (Json × T)
  creation body (ok t) = some (body, t)
  creation body (err e) = none

  -- The first request with the key whose resource was created: its body and resource. The list has
  -- the requests of before, the newest first.
  unfoldable pub creator : Text → List (Request E T) → Option (Json × T)
  creator key [] = none
  creator key (r ∷ earlier) =
      or_else (creator key earlier) (if text_eq r.key key then creation r.body r.settled else none)

  -- What a request is answered, given its key's creator.
  unfoldable pub specified : (Text → Text) → Option (Json × T) → Request E T → Answer E T
  specified sha256 none r = elim r.settled [
    | ok t ↦ ok (record { response = t; status_code = 201; replay = false })
    | err e ↦ err (not_created e)
  ]
  specified sha256 (some (body, t)) r =
      if text_eq (create_fingerprint sha256 body) (create_fingerprint sha256 r.body)
      then ok (record { response = t; status_code = 201; replay = true })
      else err key_reused

  unfoldable pub specified_all :
      (Text → Text) → List (Request E T) → List (Request E T) → List (Answer E T)
  specified_all sha256 history [] = []
  specified_all sha256 history (r ∷ rs) =
      specified sha256 (creator r.key history) r ∷ specified_all sha256 (r ∷ history) rs

  -- The requests one after another, by the code.
  unfoldable pub serve : (Text → Text) → List (Request E T) → Records T → List (Answer E T)
  serve sha256 [] records = []
  serve sha256 (r ∷ rs) records =
      let (answer, after) =
        handle_idempotency sha256 r.key r.body r.settled (λ records. records) records in
      answer ∷ serve sha256 rs after

abbrev recorded : {T : Type 0} → (Text → Text) → Option (Json × T) → Option (IdempotencyRecord T)
recorded sha256 none = none
recorded sha256 (some (body, t)) =
    some (record { fingerprint = create_fingerprint sha256 body; response = t; status_code = 201 })

module _ {E T : Type 0} (sha256 : Text → Text) where
  -- The records hold each key's creator.
  abbrev Refines : Records T → List (Request E T) → Type 0
  Refines records history =
      (key : Text) → get_idempotency_record key records ≡ recorded sha256 (creator key history)

  -- By the code's record of the key, the answer is the one specified by its creator.
  answered :
      (found : Option (Json × T)) (r : Request E T) (records : Records T)
      → (answer_by_record sha256 r.key r.body r.settled
          (λ records. records)
          records
          (recorded sha256 found)).0
        ≡ specified sha256 found r
  unfolding answer_by_record replay_record specified conclude_creation
  answered none r records = elim (Outcome-cases r.settled) [
    | inl (t, e) ↦ rw e refl
    | inr (t, e) ↦ rw e refl
  ]
  answered (some (body, t)) r records =
      elim (Bool-cases
        (text_eq (create_fingerprint sha256 body) (create_fingerprint sha256 r.body))) [
          | inl e ↦ rw e refl
          | inr e ↦ rw e refl
        ]

  -- A request that created nothing.
  kept-Refines :
      (records : Records T) (history : List (Request E T)) (r : Request E T)
      → ((key : Text)
          → or_else
              (creator key history)
              (if text_eq r.key key then creation r.body r.settled else none)
            ≡ creator key history)
      → Refines records history
      → Refines records (r ∷ history)
  unfolding creator
  kept-Refines records history r same refines key =
      refines key ∙ ap (recorded sha256) (sym (same key))

  found_kept :
      (found : Json × T) (history : List (Request E T)) (r : Request E T) (key : Text)
      → creator r.key history ≡ some found
      → or_else
          (creator key history)
          (if text_eq r.key key then creation r.body r.settled else none)
        ≡ creator key history
  found_kept found history r key present = elim (Bool-cases (text_eq r.key key)) [
    | inr other ↦ rw other (or_else-none (creator key history))
    | inl same ↦
        or_else-some (creator key history) _
          (ap (λ k. creator k history) (sym ((text_eq_iff r.key key).0 same)) ∙ present)
  ]

  failed_kept :
      (e : E) (history : List (Request E T)) (r : Request E T) (key : Text)
      → r.settled ≡ err e
      → or_else
          (creator key history)
          (if text_eq r.key key then creation r.body r.settled else none)
        ≡ creator key history
  unfolding creation
  failed_kept e history r key h = elim (Bool-cases (text_eq r.key key)) [
    | inl same ↦ rw (same, h) (or_else-none (creator key history))
    | inr other ↦ rw other (or_else-none (creator key history))
  ]

  settled-Refines :
      (t : T) (records : Records T) (history : List (Request E T)) (r : Request E T)
      → creator r.key history ≡ none
      → r.settled ≡ ok t
      → Refines records history
      → Refines (save_idempotency_record sha256 r.key r.body t 201 records) (r ∷ history)
  unfolding save_idempotency_record get_idempotency_record creator creation
  settled-Refines t records history r absent made refines key =
      elim (Bool-cases (text_eq r.key key)) [
        | inr other ↦
            rw other (refines key ∙ ap (recorded sha256) (sym (or_else-none (creator key history))))
        | inl same ↦
            let absent' =
              ap (λ k. creator k history) (sym ((text_eq_iff r.key key).0 same)) ∙ absent in
            rw (same, made, absent') refl
      ]

  -- The records after the answer refine the history with the request.
  after-Refines :
      (found : Option (Json × T)) (r : Request E T) (records : Records T)
      (history : List (Request E T))
      → creator r.key history ≡ found
      → Refines records history
      → Refines
          (answer_by_record sha256 r.key r.body r.settled
            (λ records. records)
            records
            (recorded sha256 found)).1
          (r ∷ history)
  unfolding answer_by_record conclude_creation
  after-Refines (some found) r records history present refines =
      kept-Refines records history r (λ key. found_kept found history r key present) refines
  after-Refines none r records history absent refines = elim (Outcome-cases r.settled) [
    | inl (t, made) ↦
        subst (λ c. Refines (conclude_creation sha256 r.key r.body c records).1 (r ∷ history))
          (sym made) (settled-Refines t records history r absent made refines)
    | inr (e, failed) ↦
        subst (λ c. Refines (conclude_creation sha256 r.key r.body c records).1 (r ∷ history))
          (sym failed)
          (kept-Refines records history r (λ key. failed_kept e history r key failed) refines)
  ]

  serve-Refines :
      (requests : List (Request E T)) (records : Records T) (history : List (Request E T))
      → Refines records history
      → serve sha256 requests records ≡ specified_all sha256 history requests
  unfolding serve specified_all handle_idempotency
  serve-Refines [] records history refines = refl
  serve-Refines (r ∷ rs) records history refines =
      let found = creator r.key history in
      let step =
        ap (answer_by_record sha256 r.key r.body r.settled (λ records. records) records)
          (refines r.key) in
      let after =
        subst (λ (p : Answer E T × Records T). Refines p.1 (r ∷ history)) (sym step)
          (after-Refines found r records history refl refines) in
      let answer = ap (λ (p : Answer E T × Records T). p.0) step ∙ answered found r records in
      let rest = serve-Refines rs _ (r ∷ history) after in λ i. answer i ∷ rest i

  -- Requests that come one after another, with no records at first, are answered as the history of
  -- the requests says: the first whose resource is created is the creator of its key; a request
  -- before it is answered as its own creation settles, and one after it with the creator's response,
  -- without a creation, if its body has the creator's fingerprint, and refused otherwise.
  pub serve-specified :
      (requests : List (Request E T)) → serve sha256 requests [] ≡ specified_all sha256 [] requests
  unfolding creator get_idempotency_record
  serve-specified requests = serve-Refines requests [] [] (λ key. refl)
