-- ===== src/Idempotency/Service.antt =====
-- services/idempotency.service.ts: the records and `handleIdempotency`. The hash is an argument.
use one_marketplace.Base.{
  ℕ, Bool, true, false, not, Option, none, some, List, [], ◌∷◌, Outcome, ok, err, if◌then◌else◌,
}
use one_marketplace.Base.Text.{Text, text_eq}
use one_marketplace.Idempotency.Json.{Json, canonicalize}

unfoldable pub create_fingerprint : (Text → Text) → Json → Text
create_fingerprint sha256 value = sha256 (canonicalize value)

pub record IdempotencyRecord (T : Type 0) : Type 0 where
  pub fingerprint : Text
  pub response : T
  pub status_code : ℕ

-- The Map: its entries, the newest first.
abbrev pub Records : Type 0 → Type 0
Records T = List (Text × IdempotencyRecord T)

unfoldable pub get_idempotency_record :
    {T : Type 0} → Text → Records T → Option (IdempotencyRecord T)
get_idempotency_record key [] = none
get_idempotency_record key ((name, entry) ∷ records) =
    let rest = get_idempotency_record key records in if text_eq name key then some entry else rest

unfoldable pub save_idempotency_record :
    {T : Type 0} → (Text → Text) → Text → Json → T → ℕ → Records T → Records T
save_idempotency_record sha256 key body response status_code records =
    (
      key,
      record {
        fingerprint = create_fingerprint sha256 body;
        response = response;
        status_code = status_code;
      },
    )
    ∷ records

pub record IdempotencyResult (T : Type 0) : Type 0 where
  pub response : T
  pub status_code : ℕ
  pub replay : Bool

pub data Refusal (E : Type 0) : Type 0 where
  key_reused : Refusal E
  not_created : E → Refusal E

unfoldable pub replay_record :
    {E T : Type 0} → Text → IdempotencyRecord T → Outcome (Refusal E) (IdempotencyResult T)
replay_record fingerprint existing =
    if not (text_eq existing.fingerprint fingerprint)
    then err key_reused
    else ok
        (record { response = existing.response; status_code = existing.status_code; replay = true })

-- After createResource: a failure leaves no record.
unfoldable pub conclude_creation :
    {E T : Type 0}
    → (Text → Text)
    → Text
    → Json
    → Outcome E T
    → Records T
    → Outcome (Refusal E) (IdempotencyResult T) × Records T
conclude_creation sha256 key body (err e) records = (err (not_created e), records)
conclude_creation sha256 key body (ok resource) records = (
  ok (record { response = resource; status_code = 201; replay = false }),
  save_idempotency_record sha256 key body resource 201 records,
)

-- By the record that the key has.
unfoldable pub answer_by_record :
    {E T : Type 0}
    → (Text → Text)
    → Text
    → Json
    → Outcome E T
    → (Records T → Records T)
    → Records T
    → Option (IdempotencyRecord T)
    → Outcome (Refusal E) (IdempotencyResult T) × Records T
answer_by_record sha256 key body created meanwhile records (some existing) =
    (replay_record (create_fingerprint sha256 body) existing, records)
answer_by_record sha256 key body created meanwhile records none =
    conclude_creation sha256 key body created (meanwhile records)

-- `created` is what createResource settles to; `meanwhile` is what other requests do to the records
-- until then.
unfoldable pub handle_idempotency :
    {E T : Type 0}
    → (Text → Text)
    → Text
    → Json
    → Outcome E T
    → (Records T → Records T)
    → Records T
    → Outcome (Refusal E) (IdempotencyResult T) × Records T
handle_idempotency sha256 key body created meanwhile records =
    answer_by_record sha256 key body created meanwhile records (get_idempotency_record key records)
