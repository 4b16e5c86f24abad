-- ===== src/Examples/Again.antt =====
-- An order request that is sent twice.
use one_marketplace.Base.{◌≡◌, refl, true, false, some, [], ◌∷◌, Outcome, ok, All}
use one_marketplace.Base.Text.{codes, number, decimal, number_from, decimal_from, text_eq}
use one_marketplace.Base.Table.{first, exists, update, select}
use one_marketplace.Entities.{Db, to_order_placed_event, order_placed_event_id}
use one_marketplace.Checkout.Transaction.{transaction}
use one_marketplace.Checkout.Validate.{
  validate_lines, checked_lines, checked_line, positive_integer, sort_lines, insert_line,
}
use one_marketplace.Checkout.Body.{
  checkout, checkout_body, reserve_all, reserve, total_of, total_from, charge, conflict, save_order,
  insert_items, item_rows, count_lines, receipt_job, save_job, order_event, outbox_row,
  insert_outbox, new_order, record_order,
}
use one_marketplace.PlaceOrder.{
  PlacedOrder, PlaceFailure, place, find_existing, find_by_idempotency_key, find_by_id, load_first,
  with_items, replay_of, after_checkout, created,
}
use one_marketplace.PlaceOrder.Normal.{IsPrinted}
use one_marketplace.PlaceOrder.Again.{IsNew, place_again}
use one_marketplace.Examples.Shop.{shop, wants, noon, placed_order}
use one_marketplace.Examples.Orders.{shop-DistinctIds, shop-DistinctUsers}
use one_marketplace.Examples.Requests.{alone}

abbrev first_time : Outcome PlaceFailure PlacedOrder × Db
first_time = place noon alone (wants 3) shop

shop-IsNew : IsNew shop
unfolding exists
shop-IsNew = record { orders = refl; items = refl }

wants-IsPrinted : All (λ item. IsPrinted item.product_id) (wants 3).items
unfolding number number_from decimal decimal_from
wants-IsPrinted = (refl, (refl, tt))

abbrev made : PlacedOrder
made = record {
  loaded = record {
    order = record {
      id = 1;
      user_id = 7;
      status = placed_order.status;
      total = 850;
      idempotency_key = some (codes "k");
      created_at = 5000;
    };
    items =
        record { id = 1; order_id = 1; product_id = 1; quantity = 3; unit_price = 150 }
        ∷ record { id = 2; order_id = 1; product_id = 2; quantity = 1; unit_price = 400 }
        ∷ [];
  };
  replay = false;
}

first-made : place noon alone (wants 3) shop ≡ (ok made, first_time.1)
unfolding place find_existing find_by_idempotency_key load_first with_items replay_of checkout
    checkout_body transaction validate_lines checked_lines checked_line positive_integer sort_lines
    insert_line number number_from decimal decimal_from reserve_all reserve total_of total_from
    charge conflict save_order insert_items item_rows count_lines receipt_job save_job order_event
    outbox_row insert_outbox new_order record_order first exists update select text_eq
    to_order_placed_event order_placed_event_id after_checkout created find_by_id
first-made = refl

place_again_example :
    place noon alone (wants 3) first_time.1 ≡ (ok (record made { replay = true }), first_time.1)
place_again_example =
    place_again noon noon alone alone (wants 3) 107 [] shop first_time.1 made refl wants-IsPrinted
      shop-DistinctIds shop-DistinctUsers shop-IsNew first-made refl
