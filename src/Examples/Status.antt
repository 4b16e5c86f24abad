-- ===== src/Examples/Status.antt =====
-- Changes of a placed order, and the events of them.
use one_marketplace.Base.{
  ℕ, ◌≤◌, ◌<◌, ◌+◌, ◌≡◌, refl, true, Option, Outcome, some, List, [], ◌∷◌, ok, err, arith, ◌==◌,
  if◌then◌else◌,
}
use one_marketplace.Base.Text.{
  Text, codes, text_eq, number, number_from, is_id, all_digits, is_digit,
}
use one_marketplace.Base.Table.{first, count}
use one_marketplace.Entities.{Order, OrderStatus}
use one_marketplace.OrderEvents.{buffer_size, max_orders, init, publish, missed_since, get, last_id}
use one_marketplace.OrderEvents.Buffers.{IsValid, publish-IsValid}
use one_marketplace.OrderEvents.Replay.{
  own_changes, other_changes, publish_all, published, missed_since-publish_all,
  missed_since_restarted,
}
use one_marketplace.OrderEvents.Replay
use one_marketplace.OrderEvents.Retained.{behind}
use one_marketplace.OrderStatus.{invalid_transition, World, set_status, change}
use one_marketplace.OrderStatus.Transitions.{
  find_order, order_at, ◌⟶◌, pay, cancel_paid, change_moves, change_refused,
}
use one_marketplace.Examples.Shop.{ordered, placed_order}

abbrev three : Text
three = codes "3"

init-IsValid : IsValid init
init-IsValid = record { orders = omega arith; each = tt }

publish-IsValid_example : IsValid (publish 5000 three OrderStatus.paid init).0
publish-IsValid_example = publish-IsValid 5000 three OrderStatus.paid init init-IsValid

-- Of the changes of two orders
abbrev changes : List Replay.Change
changes =
    record { order_id = three; now = 6000; status = OrderStatus.pending }
    ∷ record { order_id = codes "4"; now = 6500; status = OrderStatus.paid }
    ∷ record { order_id = three; now = 7000; status = OrderStatus.paid }
    ∷ []

few_own : own_changes three changes ≤ buffer_size
unfolding count text_eq
few_own = omega arith

few_others : behind three init.buffers + other_changes three changes < max_orders
unfolding count text_eq behind
few_others = omega arith

missed_since-publish_all_example :
    missed_since three (last_id (get three init.buffers)) (publish_all changes init)
    ≡ published three changes init
missed_since-publish_all_example =
    missed_since-publish_all three changes init init-IsValid few_own few_others

no_buffer : get three init.buffers ≡ []
unfolding get
no_buffer = refl

missed_since_restarted_example :
    ((publish 5000 three OrderStatus.cancelled init).1.id ≡ 1)
    × (missed_since three 2 (publish 5000 three OrderStatus.cancelled init).0 ≡ [])
missed_since_restarted_example =
    missed_since_restarted 5000 2 three OrderStatus.cancelled init no_buffer (omega arith)

abbrev world : World
world = record { db = ordered; events = init; refreshes = [] }

placed-order_at : find_order three world.db.orders ≡ ok (some placed_order)
unfolding number number_from first is_id all_digits is_digit
placed-order_at = refl

change_moves_example :
    ((change true 5000 three OrderStatus.cancelled world).0
      ≡ ok (publish 5000 three OrderStatus.cancelled init).1)
    × ((change true 5000 three OrderStatus.cancelled world).1.events
        ≡ (publish 5000 three OrderStatus.cancelled init).0)
    × ((j : ℕ)
        → order_at j (change true 5000 three OrderStatus.cancelled world).1.db.orders ≡ (
            if j == number three
            then some (set_status OrderStatus.cancelled placed_order)
            else order_at j ordered.orders))
unfolding first
change_moves_example =
    change_moves true 5000 three OrderStatus.cancelled world placed_order (refl, tt) placed-order_at
      cancel_paid

before_paid : {s : OrderStatus} → s ⟶ OrderStatus.paid → s ≡ OrderStatus.pending
before_paid pay = refl

abbrev found_placed : Outcome (Unit {0}) (Option Order)
found_placed = ok (some placed_order)

paid-stays : (o : Order) → found_placed ≡ ok (some o) → ¬ (o.status ⟶ OrderStatus.paid)
paid-stays o e m = ground (arith, before_paid m)

change_refused_example :
    ((change true 5000 three OrderStatus.paid world).1 ≡ world)
    × ((change true 5000 three OrderStatus.paid world).0 ≡ err invalid_transition)
unfolding first
change_refused_example =
    change_refused true 5000 three OrderStatus.paid world (ok (some placed_order)) (refl, tt)
      placed-order_at paid-stays
