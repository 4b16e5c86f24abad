-- ===== src/Examples/Sockets.antt =====
-- A socket that joins the room of an order, and an event of the order.
use one_marketplace.Base.{ℕ, true, none, some, Option, List, [], ◌∷◌, All, if◌then◌else◌}
use one_marketplace.Base.Text.{Text, codes, text_eq}
use one_marketplace.OrderEvents.{OrderStatusEvent}
use one_marketplace.PlaceOrder.{find_owner_id}
use one_marketplace.Auth.{AuthenticatedUser}
use one_marketplace.Auth.Denylist.{Denylist}
use one_marketplace.Gateway.{written, deliver}
use one_marketplace.Gateway.Rooms.{
  Step, connects, joins, run, IsSound, IsReceiver, deliver-IsReceiver,
}
use one_marketplace.Examples.Shop.{ann, ordered, placed_order}

abbrev user : AuthenticatedUser
user = record { id = 7; role = ann.role; session_id = 50; token_id = 8; expires_at = 690 }

abbrev claims : Text → Option AuthenticatedUser
claims token = if text_eq token (codes "t") then some user else none

abbrev in_sync : Denylist
in_sync = record { keys = []; synced = true; generation = 0 }

abbrev owner : ℕ → Option ℕ
owner id = find_owner_id id ordered

abbrev steps : List Step
steps = connects 1 (some (codes "t")) ∷ joins claims 90 in_sync ordered (written (codes "3")) 1 ∷ []

steps-IsSound : All (IsSound claims owner) steps
steps-IsSound = (tt, (((λ token u h. h), (λ id user_id h. h)), tt))

abbrev event : OrderStatusEvent
event = record { id = 1; order_id = codes "3"; status = placed_order.status; changed_at = 95000 }

deliver-IsReceiver_example :
    All (IsReceiver claims owner 95 in_sync event) (deliver 95 in_sync true event (run steps [])).0
deliver-IsReceiver_example =
    deliver-IsReceiver claims owner steps 95 in_sync true event steps-IsSound
