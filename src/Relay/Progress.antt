-- ===== src/Relay/Progress.antt =====
-- What a batch of the relay (messaging/outbox-relay.ts) gets done when the broker answers.
use one_marketplace.Base.{
  map, sym, [], ℕ, zero, suc, ◌+◌, ◌<◌, ◌≡◌, refl, ap, ◌∙◌, none, some, List, ◌∷◌, inl, inr, ◌⊎◌,
  ok, err, arith, Option-cases,
}
use one_marketplace.Base.Table.{count}
use one_marketplace.Base.Ordered.{least-none}
use one_marketplace.Entities.{Outbox}
use one_marketplace.Relay.Batch.{
  Environment, RelayState, RelayOutcome, Settled, Rounds, is_selectable, is_before, next_row,
  relay_row, relay_round, relay_from,
}
use one_marketplace.Relay.Rows.{is_confirmed, is_due, done}
use one_marketplace.Relay.Delivery.{DistinctRows, next_row-row}
use one_marketplace.Relay.Taken.{
  selectable, due_of, IsCalm, Relayed, Taken, failed-Taken, published-Taken,
}

-- A round, when a row is left.
relay_round-Taken :
    (env : Environment) (skipped : List ℕ) (s : RelayState) (row : Outbox)
    → IsCalm env
    → DistinctRows s.outbox
    → next_row skipped s.outbox ≡ some row
    → ((s' : RelayState) × (relay_round env skipped s ≡ (ok (RelayOutcome.published, skipped), s'))
        × Taken env skipped skipped 1 s s')
      ⊎ ((s' : RelayState) × (relay_round env skipped s
            ≡ (ok (RelayOutcome.failed, row.id ∷ skipped), s'))
          × Taken env skipped (row.id ∷ skipped) 0 s s')
unfolding relay_round relay_row
relay_round-Taken env skipped s row calm d e =
    let (h, p) = next_row-row skipped s.outbox row d e in
    elim (calm.answers row) [
      | inl reply ↦ inl (
        _,
        ground (arith, calm.hook row),
        published-Taken env skipped row s d h p (ap is_confirmed reply),
      )
      | inr reply ↦
          inr (_, ground arith, failed-Taken env skipped row s d h p (ap is_confirmed reply))
    ]

-- What the loop does with the outcome of a round.
abbrev pub after_round : ℕ → Environment → ℕ → Settled → Rounds
after_round rounds env total round = elim round.0 [
  | err e ↦ (err e, round.1)
  | ok (outcome, skipped) ↦ elim outcome [
    | RelayOutcome.empty ↦ (ok total, round.1)
    | RelayOutcome.published ↦ relay_from rounds env skipped (1 + total) round.1
    | RelayOutcome.failed ↦ relay_from rounds env skipped total round.1
  ]
]

relay_round-idle :
    (env : Environment) (skipped : List ℕ) (s : RelayState)
    → next_row skipped s.outbox ≡ none
    → relay_round env skipped s ≡ (ok (RelayOutcome.empty, skipped), s)
unfolding relay_round
relay_round-idle env skipped s e = rw (e, relay_round) refl

relay_from-idle :
    (rounds : ℕ) (env : Environment) (skipped : List ℕ) (total : ℕ) (s : RelayState)
    → next_row skipped s.outbox ≡ none
    → relay_from (suc rounds) env skipped total s ≡ (ok total, s)
unfolding relay_from relay_round
relay_from-idle rounds env skipped total s e =
    ap (after_round rounds env total) (relay_round-idle env skipped s e)

relay_from-published :
    (rounds : ℕ) (env : Environment) (skipped : List ℕ) (total : ℕ) (s s' : RelayState)
    → relay_round env skipped s ≡ (ok (RelayOutcome.published, skipped), s')
    → relay_from (suc rounds) env skipped total s ≡ relay_from rounds env skipped (1 + total) s'
unfolding relay_from
relay_from-published rounds env skipped total s s' e = ap (after_round rounds env total) e

relay_from-failed :
    (rounds : ℕ) (env : Environment) (skipped skipped' : List ℕ) (total : ℕ) (s s' : RelayState)
    → relay_round env skipped s ≡ (ok (RelayOutcome.failed, skipped'), s')
    → relay_from (suc rounds) env skipped total s ≡ relay_from rounds env skipped' total s'
unfolding relay_from
relay_from-failed rounds env skipped skipped' total s s' e = ap (after_round rounds env total) e

next_row-none :
    (skipped : List ℕ) (outbox : List Outbox)
    → next_row skipped outbox ≡ none
    → count (is_selectable skipped) outbox ≡ 0
unfolding next_row
next_row-none skipped outbox e = least-none is_before (is_selectable skipped) outbox e

idle-Relayed :
    (env : Environment) (skipped : List ℕ) (id : ℕ) (rows : List Outbox)
    → count (is_selectable skipped) rows ≡ 0
    → (count (is_due env skipped) rows ≡ 0)
      × (map (done env skipped) rows ≡ rows)
      × (count (due_of env skipped id) rows ≡ 0)
unfolding count
idle-Relayed env skipped id [] h = (refl, refl, refl)
idle-Relayed env skipped id (r ∷ rows) h =
    let rest = idle-Relayed env skipped id rows (ground (arith, h)) in ground (arith, h, rest)

Relayed-step :
    (env : Environment) (skipped skipped' : List ℕ) (gain total total' : ℕ) (s s' : RelayState)
    (n : ℕ) (last : RelayState)
    → Taken env skipped skipped' gain s s'
    → total' ≡ gain + total
    → Relayed env skipped' total' s' n last
    → Relayed env skipped total s n last
Relayed-step env skipped skipped' gain total total' s s' n last t e r = record {
  counted = omega (arith, e, t.counted, r.counted);
  rows = r.rows ∙ t.rows;
  sent = λ id. omega (arith, t.sent id, r.sent id);
}

-- From rows with distinct ids, when the broker answers every publish and the hook throws nothing,
-- a batch whose limit exceeds the rows to take ends, and adds to its count the number of those that
-- the broker confirms: it has sent each of them once more and marked it as published, tried each row
-- that is returned as unroutable once, and left every other row as it was.
pub relay_from-Relayed :
    (rounds : ℕ) (env : Environment) (skipped : List ℕ) (total : ℕ) (s : RelayState)
    → IsCalm env
    → DistinctRows s.outbox
    → selectable skipped s < rounds
    → (n : ℕ) × (s' : RelayState) × (relay_from rounds env skipped total s ≡ (ok n, s'))
      × Relayed env skipped total s n s'
relay_from-Relayed zero env skipped total s calm d h = absurd (omega arith)
relay_from-Relayed (suc rounds) env skipped total s calm d h =
    elim (Option-cases (next_row skipped s.outbox)) [
      | inl e ↦
          let idle = next_row-none skipped s.outbox e in
          (
            total,
            s,
            relay_from-idle rounds env skipped total s e,
            record {
              counted = omega (arith, (idle-Relayed env skipped 0 s.outbox idle).0);
              rows = sym (idle-Relayed env skipped 0 s.outbox idle).1;
              sent = λ id. omega (arith, (idle-Relayed env skipped id s.outbox idle).2);
            },
          )
      | inr (row, e) ↦ elim (relay_round-Taken env skipped s row calm d e) [
        | inl (s', step, t) ↦
            let (n, last, run, r) =
              relay_from-Relayed rounds env skipped (1 + total) s' calm t.distinct
                (omega (arith, t.fewer)) in
            (
              n,
              last,
              relay_from-published rounds env skipped total s s' step ∙ run,
              Relayed-step env skipped skipped 1 total (1 + total) s s' n last t refl r,
            )
        | inr (s', step, t) ↦
            let (n, last, run, r) =
              relay_from-Relayed rounds env (row.id ∷ skipped) total s' calm t.distinct
                (omega (arith, t.fewer)) in
            (
              n,
              last,
              relay_from-failed rounds env skipped (row.id ∷ skipped) total s s' step ∙ run,
              Relayed-step env skipped (row.id ∷ skipped) 0 total total s s' n last t (omega arith)
                  r,
            )
      ]
    ]
