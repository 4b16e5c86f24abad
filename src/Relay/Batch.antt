-- ===== src/Relay/Batch.antt =====
-- messaging/outbox-relay.ts, `relayBatch`: each round is a transaction that takes the oldest row that
-- is left, publishes it and marks it.
use one_marketplace.Base.{
  ℕ, zero, suc, ◌+◌, Bool, true, false, not, ◌&&◌, ◌||◌, Option, none, some, List, [], ◌∷◌, Outcome,
  ok, err, ltb, ◌==◌, if◌then◌else◌,
}
use one_marketplace.Base.Table.{select, update}
use one_marketplace.Base.Ordered.{least}
use one_marketplace.Entities.{Outbox}

-- What `publisher.publish` comes to: confirmed by the broker, returned as unroutable
-- (`UnroutableEventError`), or another error.
pub data Publish : Type 0 where
  confirmed returned broken : Publish

-- The broker's answer to a row, and whether the hook after a publish throws.
pub record Environment : Type 0 where
  pub publish : Outbox → Publish
  pub after_publish_throws : Outbox → Bool
  pub now : ℕ

abbrev pub relay_batch_size : ℕ
relay_batch_size = 100

abbrev pub relay_max_attempts : ℕ
relay_max_attempts = 10

-- The outbox table, and the ids of the messages that the broker confirmed, the latest first.
pub record RelayState : Type 0 where
  pub outbox : List Outbox
  pub sent : List ℕ

pub data RelayOutcome : Type 0 where
  published failed empty : RelayOutcome

unfoldable pub contains : ℕ → List ℕ → Bool
contains id [] = false
contains id (x ∷ xs) = id == x || contains id xs

unfoldable pub is_unpublished : Option ℕ → Bool
is_unpublished none = true
is_unpublished (some t) = false

-- WHERE published_at IS NULL AND attempts < $1 AND id <> ALL($2)
unfoldable pub is_selectable : List ℕ → Outbox → Bool
unfolding is_unpublished contains
is_selectable skipped row =
    is_unpublished row.published_at
    && ltb row.attempts relay_max_attempts
    && not (contains row.id skipped)

-- ORDER BY created_at, id
unfoldable pub is_before : Outbox → Outbox → Bool
is_before a b = ltb a.created_at b.created_at || a.created_at == b.created_at && ltb a.id b.id

unfoldable pub next_row : List ℕ → List Outbox → Option Outbox
next_row skipped outbox = least is_before (select (is_selectable skipped) outbox)

abbrev pub mark_failed : Outbox → Outbox
mark_failed row = record row { attempts = row.attempts + 1 }

abbrev pub mark_published : ℕ → Outbox → Outbox
mark_published now row = record row { published_at = some now; attempts = row.attempts + 1 }

-- What a round comes to: an outcome with the ids that failed so far, or a thrown error.
abbrev pub Settled : Type 0
Settled = Outcome (Unit {0}) (RelayOutcome × List ℕ) × RelayState

-- The transaction once a row is taken. What was published stays published if it then throws.
unfoldable pub relay_row : Environment → List ℕ → Outbox → Publish → RelayState → Settled
relay_row env skipped row broken s = (err tt, s)
relay_row env skipped row returned s = (
  ok (RelayOutcome.failed, row.id ∷ skipped),
  record s { outbox = update (λ r. r.id == row.id) mark_failed s.outbox },
)
relay_row env skipped row confirmed s =
    let sent = record s { sent = row.id ∷ s.sent } in
    if env.after_publish_throws row then (err tt, sent) else (
      ok (RelayOutcome.published, skipped),
      record sent { outbox = update (λ r. r.id == row.id) (mark_published env.now) s.outbox },
    )

unfoldable pub relay_round : Environment → List ℕ → RelayState → Settled
unfolding relay_row
relay_round env skipped s = elim (next_row skipped s.outbox) [
  | none ↦ (ok (RelayOutcome.empty, skipped), s)
  | some row ↦ relay_row env skipped row (env.publish row) s
]

abbrev pub Rounds : Type 0
Rounds = Outcome (Unit {0}) ℕ × RelayState

-- The loop: `rounds` are left of the limit, `total` is the count so far.
unfoldable pub relay_from : ℕ → Environment → List ℕ → ℕ → RelayState → Rounds
relay_from zero env skipped total s = (ok total, s)
relay_from (suc rounds) env skipped total s =
    let (result, s') = relay_round env skipped s in
    elim result [
      | err e ↦ (err e, s')
      | ok (outcome, skipped') ↦ elim outcome [
        | RelayOutcome.empty ↦ (ok total, s')
        | RelayOutcome.published ↦ relay_from rounds env skipped' (1 + total) s'
        | RelayOutcome.failed ↦ relay_from rounds env skipped' total s'
      ]
    ]

unfoldable pub relay_batch : ℕ → Environment → RelayState → Rounds
unfolding relay_from
relay_batch limit env s = relay_from limit env [] 0 s
