-- ===== src/RelayProcess/Main.antt =====
-- relay.ts, `main`: the loop of cleanups and batches. The database answers; its clock, the process's
-- clock and the broker's replies come with each turn. A signal to stop ends the list of turns.
use one_marketplace.Base.{
  ℕ, suc, ◌+◌, ◌*◌, Bool, false, Option, none, some, List, [], ◌∷◌, ◌++◌, length, Outcome, ok, err,
  leb, ltb, if◌then◌else◌,
}
use one_marketplace.Entities.{Outbox}
use one_marketplace.Relay.{broken, Environment, relay_batch_size, Rounds, RelayState}
use one_marketplace.Publisher.{Publisher, new_publisher, open_channel, BrokerReply, publish_from}
use one_marketplace.Cleanup.{outbox_retention_days, outbox_cleanup_batch, cleanup_outbox}

abbrev pub cleanup_interval_ms : ℕ
cleanup_interval_ms = 60 * 60 * 1000

-- What the process logs, and its sleeps.
pub data Logged : Type 0 where
  cleaned relayed : ℕ → Logged
  slept : Logged

pub record RelayProcess : Type 0 where
  pub relay : RelayState
  pub publisher : Publisher
  pub next_cleanup_at : ℕ
  pub log : List Logged

-- A turn of the loop: the rows that orders added before it, the time of its check, the times of the
-- database at a cleanup's batches, the time after the cleanup, and of the batch the replies and the
-- database's time.
pub record RelayTurn : Type 0 where
  pub arrivals : List Outbox
  pub checked_at : ℕ
  pub clock : ℕ → ℕ
  pub cleaned_at : ℕ
  pub reply : Outbox → BrokerReply
  pub now : ℕ

abbrev pub arrive : RelayTurn → RelayProcess → RelayProcess
arrive turn s = record s { relay = record s.relay { outbox = s.relay.outbox ++ turn.arrivals } }

-- What a cleanup leaves, and when the next is due. Its fuel is enough, as each batch but the last
-- deletes a thousand rows.
unfoldable pub after_cleanup : RelayTurn → Option (ℕ × List Outbox) → RelayProcess → RelayProcess
after_cleanup turn none s = s
after_cleanup turn (some (deleted, rows)) s = record s {
  relay = record s.relay { outbox = rows };
  next_cleanup_at = turn.cleaned_at + cleanup_interval_ms;
  log = if ltb 0 deleted then cleaned deleted ∷ s.log else s.log;
}

abbrev pub cleaned_outbox : RelayTurn → List Outbox → Option (ℕ × List Outbox)
cleaned_outbox turn outbox =
    cleanup_outbox (suc (length outbox)) outbox_retention_days outbox_cleanup_batch turn.clock
      outbox

unfoldable pub cleanup_if_due : RelayTurn → RelayProcess → RelayProcess
unfolding after_cleanup
cleanup_if_due turn s =
    if leb s.next_cleanup_at turn.checked_at
    then after_cleanup turn (cleaned_outbox turn s.relay.outbox) s
    else s

-- relayBatch is called without a hook; its publishes go through the publisher.
abbrev pub unhooked : ℕ → Environment
unhooked now = record { publish = λ row. broken; after_publish_throws = λ row. false; now = now }

-- What the process makes of a batch: one that published nothing is followed by a sleep.
unfoldable pub after_batch :
    Rounds × Publisher → RelayProcess → Outcome (Unit {0}) (Unit {0}) × RelayProcess
after_batch ((err e, relay), publisher) s =
    (err e, record s { relay = relay; publisher = publisher })
after_batch ((ok published, relay), publisher) s = (
  ok tt,
  record s {
    relay = relay;
    publisher = publisher;
    log = (if ltb 0 published then relayed published else slept) ∷ s.log;
  },
)

unfoldable pub relay_once : RelayTurn → RelayProcess → Outcome (Unit {0}) (Unit {0}) × RelayProcess
unfolding after_batch
relay_once turn s =
    after_batch
      (publish_from relay_batch_size turn.reply (unhooked turn.now) [] 0 s.relay s.publisher) s

unfoldable pub relay_turn : RelayTurn → RelayProcess → Outcome (Unit {0}) (Unit {0}) × RelayProcess
unfolding cleanup_if_due relay_once
relay_turn turn s = relay_once turn (cleanup_if_due turn (arrive turn s))

-- A batch that throws ends the process; `rest` is what follows a turn.
unfoldable pub after_turn :
    Outcome (Unit {0}) (Unit {0})
    → RelayProcess
    → Outcome (Unit {0}) (Unit {0}) × RelayProcess
    → Outcome (Unit {0}) (Unit {0}) × RelayProcess
after_turn (err e) s rest = (err e, s)
after_turn (ok u) s rest = rest

unfoldable pub relay_loop :
    List RelayTurn → RelayProcess → Outcome (Unit {0}) (Unit {0}) × RelayProcess
unfolding relay_turn after_turn
relay_loop [] s = (ok tt, s)
relay_loop (turn ∷ turns) s =
    let (result, s') = relay_turn turn s in
    let rest = relay_loop turns s' in after_turn result s' rest

abbrev pub started : Publisher → RelayState → RelayProcess
started publisher s = record { relay = s; publisher = publisher; next_cleanup_at = 0; log = [] }

-- `asserted` says whether the channel's exchange is asserted.
unfoldable pub relay_main :
    Bool → List RelayTurn → RelayState → Outcome (Unit {0}) (Unit {0}) × RelayProcess
unfolding open_channel relay_loop
relay_main asserted turns s =
    let (opening, publisher) = open_channel asserted new_publisher in
    elim opening [
      | err e ↦ (err e, started publisher s)
      | ok u ↦ relay_loop turns (started publisher s)
    ]
