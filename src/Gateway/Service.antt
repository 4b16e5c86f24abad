-- ===== src/Gateway/Service.antt =====
-- gateways/orders.gateway.ts: `join` and `deliver`. A socket's handshake has the token that it
-- connected with, and `data.user` is set by the joins.
use one_marketplace.Base.{
  ℕ, Bool, false, ◌&&◌, Option, none, some, List, [], ◌∷◌, ◌++◌, Outcome, ok, err, ltb, ◌==◌,
  if◌then◌else◌,
}
use one_marketplace.Base.Text.{Text, codes, text_eq, is_id, number, decimal}
use one_marketplace.Base.Table.{exists}
use one_marketplace.Entities.{Db}
use one_marketplace.Checkout.Input.{int8_max}
use one_marketplace.OrderEvents.{OrderStatusEvent}
use one_marketplace.PlaceOrder.{find_owner_id}
use one_marketplace.Auth.{AuthenticatedUser}
use one_marketplace.Auth.Denylist.{Denylist}
use one_marketplace.Auth.Access.{AccessFailure, rejected, unavailable, authenticate, is_still_valid}

pub record Socket : Type 0 where
  pub id : ℕ
  pub token : Option Text
  pub user : Option AuthenticatedUser
  pub rooms : List Text

pub data JoinFailure : Type 0 where
  unauthorized unreachable order_not_found forbidden : JoinFailure

-- The acknowledgement is the room, or why there is none; a query that fails is thrown.
pub data JoinError : Type 0 where
  refused : JoinFailure → JoinError
  query_failed : JoinError

unfoldable pub order_room : Text → Text
order_room order_id = codes "orders:" ++ order_id

-- The `orderId` of a message: a string, a natural number, or anything else.
pub data MessageId : Type 0 where
  written : Text → MessageId
  numeric : ℕ → MessageId
  other : MessageId

unfoldable pub to_id : MessageId → Option Text
to_id (written text) = if is_id text then some text else none
to_id (numeric n) = some (decimal n)
to_id other = none

unfoldable pub joining_user :
    Outcome AccessFailure AuthenticatedUser → Outcome JoinFailure AuthenticatedUser
joining_user (ok user) = ok user
joining_user (err rejected) = err unauthorized
joining_user (err unavailable) = err unreachable

unfoldable pub authenticate_token :
    (Text → Option AuthenticatedUser)
    → ℕ
    → Denylist
    → Option Text
    → Outcome JoinFailure AuthenticatedUser
authenticate_token verify now d none = err unauthorized
authenticate_token verify now d (some []) = err unauthorized
authenticate_token verify now d (some (c ∷ cs)) = joining_user (authenticate verify now d (c ∷ cs))

-- The order's id, if its owner is the user.
unfoldable pub joinable_of : AuthenticatedUser → Text → Option ℕ → Outcome JoinError Text
joinable_of user order_id none = err (refused order_not_found)
joinable_of user order_id (some owner_id) =
    if owner_id == user.id then ok order_id else err (refused forbidden)

unfoldable pub joinable : AuthenticatedUser → Option Text → Db → Outcome JoinError Text
joinable user none db = err (refused order_not_found)
joinable user (some order_id) db =
    if ltb int8_max (number order_id)
    then err query_failed
    else joinable_of user order_id (find_owner_id (number order_id) db)

-- What a join answers, and the socket after it.
unfoldable pub entered :
    AuthenticatedUser → Socket → Outcome JoinError Text → Outcome JoinError Text × Socket
entered user client (err e) = (err e, client)
entered user client (ok order_id) = (
  ok (order_room order_id),
  record client { user = some user; rooms = client.rooms ++ order_room order_id ∷ [] },
)

unfoldable pub join_by :
    Db
    → MessageId
    → Socket
    → Outcome JoinFailure AuthenticatedUser
    → Outcome JoinError Text × Socket
join_by db order_id client (err e) = (err (refused e), client)
join_by db order_id client (ok user) = entered user client (joinable user (to_id order_id) db)

unfoldable pub join_room :
    (Text → Option AuthenticatedUser)
    → ℕ
    → Denylist
    → Db
    → MessageId
    → Socket
    → Outcome JoinError Text × Socket
join_room verify now d db order_id client =
    join_by db order_id client (authenticate_token verify now d client.token)

unfoldable pub is_in : Text → Socket → Bool
is_in room client = exists (λ r. text_eq r room) client.rooms

unfoldable pub may_receive : ℕ → Denylist → Socket → Bool
may_receive now d client = elim client.user [ none ↦ false | some user ↦ is_still_valid now d user ]

-- The sockets that the event is sent to, and those that stay connected. `reached` says whether the
-- sockets of the room could be fetched; if not, nothing is sent.
unfoldable pub deliver :
    ℕ → Denylist → Bool → OrderStatusEvent → List Socket → List Socket × List Socket
deliver now d reached event [] = ([], [])
deliver now d reached event (client ∷ clients) =
    let (sent, connected) = deliver now d reached event clients in
    if reached && is_in (order_room event.order_id) client
    then (if may_receive now d client
        then (client ∷ sent, client ∷ connected)
        else (sent, connected))
    else (sent, client ∷ connected)
