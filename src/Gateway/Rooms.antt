-- ===== src/Gateway/Rooms.antt =====
-- Who is in the rooms of gateways/orders.gateway.ts, and who is sent the events of an order.
use one_marketplace.Base.{
  ℕ, ◌≡◌, refl, ap, subst, ◌∙◌, Bool, true, false, ◌&&◌, Option, none, some, inl, inr, List, [],
  ◌∷◌, Outcome, ok, err, arith, ◌==◌, ==_iff, All, All-append, Bool-cases, Option-cases,
  if◌then◌else◌,
}
use one_marketplace.Base.Text.{Text, text_eq, text_eq_iff, number}
use one_marketplace.Base.Table.{exists}
use one_marketplace.Entities.{Db}
use one_marketplace.OrderEvents.{OrderStatusEvent}
use one_marketplace.PlaceOrder.{find_owner_id}
use one_marketplace.Auth.{AuthenticatedUser}
use one_marketplace.Auth.Denylist.{Denylist}
use one_marketplace.Auth.Access.{
  AccessFailure, rejected, unavailable, authenticate, not_denied, is_still_valid,
}
use one_marketplace.Gateway.Service.{
  Socket, JoinError, JoinFailure, joinable_of, join_by, joining_user, MessageId, order_room, to_id,
  authenticate_token, joinable, entered, join_room, is_in, may_receive, deliver,
}

-- What happens at the gateway. The message of a join comes from the socket with that id.
pub data Step : Type 0 where
  connects : ℕ → Option Text → Step
  joins : (Text → Option AuthenticatedUser) → ℕ → Denylist → Db → MessageId → ℕ → Step
  delivers : ℕ → Denylist → Bool → OrderStatusEvent → Step

unfoldable pub join_at :
    (Text → Option AuthenticatedUser)
    → ℕ
    → Denylist
    → Db
    → MessageId
    → ℕ
    → List Socket
    → List Socket
join_at verify now d db order_id id [] = []
join_at verify now d db order_id id (client ∷ clients) =
    (if client.id == id then (join_room verify now d db order_id client).1 else client)
    ∷ join_at verify now d db order_id id clients

unfoldable pub step : Step → List Socket → List Socket
step (connects id token) clients =
    record { id = id; token = token; user = none; rooms = [] } ∷ clients
step (joins verify now d db order_id id) clients = join_at verify now d db order_id id clients
step (delivers now d reached event) clients = (deliver now d reached event clients).1

unfoldable pub run : List Step → List Socket → List Socket
run [] clients = clients
run (s ∷ steps) clients = run steps (step s clients)

-- `claims` are the users that tokens are signed for, and `owner` is whose an order is. A token that
-- is not expired yet verifies as its user, and an order keeps its owner.
module _ (claims : Text → Option AuthenticatedUser) (owner : ℕ → Option ℕ) where
  abbrev pub IsSound : Step → Type 0
  IsSound (joins verify now d db order_id id) =
      ((token : Text) (user : AuthenticatedUser)
        → verify token ≡ some user
        → claims token ≡ some user)
      × ((id user_id : ℕ) → find_owner_id id db ≡ some user_id → owner id ≡ some user_id)
  IsSound _ = Unit

  -- A room of an order of the user.
  abbrev pub IsRoomOf : AuthenticatedUser → Text → Type 0
  IsRoomOf user room =
      (order_id : Text) × (room ≡ order_room order_id) × (owner (number order_id) ≡ some user.id)

  -- A socket without a user is in no room; one with a user has the user's token, and the rooms of
  -- orders of the user.
  abbrev pub HasRooms : Option AuthenticatedUser → Socket → Type 0
  HasRooms none client = client.rooms ≡ []
  HasRooms (some user) client =
      ((token : Text) × (client.token ≡ some token) × (claims token ≡ some user))
      × All (IsRoomOf user) client.rooms

  abbrev pub IsOwned : Socket → Type 0
  IsOwned client = HasRooms client.user client

  joinable_of-owner :
      (user : AuthenticatedUser) (id : Text) (found : Option ℕ) (order_id : Text)
      → ((user_id : ℕ) → found ≡ some user_id → owner (number id) ≡ some user_id)
      → joinable_of user id found ≡ ok order_id
      → owner (number order_id) ≡ some user.id
  unfolding joinable_of
  joinable_of-owner user id none order_id sound h = absurd (ground arith)
  joinable_of-owner user id (some owner_id) order_id sound h =
      elim (Bool-cases (owner_id == user.id)) [
        | inr other ↦ absurd (ground (arith, other, h))
        | inl same ↦
            let is : id ≡ order_id = ground (arith, same, h) in
            rw (← is, ← (==_iff owner_id user.id).0 same) (sound owner_id refl)
      ]

  joinable-owner :
      (user : AuthenticatedUser) (id : Option Text) (db : Db) (order_id : Text)
      → ((id user_id : ℕ) → find_owner_id id db ≡ some user_id → owner id ≡ some user_id)
      → joinable user id db ≡ ok order_id
      → owner (number order_id) ≡ some user.id
  unfolding joinable
  joinable-owner user none db order_id sound h = absurd (ground arith)
  joinable-owner user (some text) db order_id sound h =
      joinable_of-owner user text (find_owner_id (number text) db) order_id (sound (number text))
        (ground (arith, h))

  not_denied-user :
      (user other : AuthenticatedUser) (denied : Outcome (Unit {0}) Bool)
      → not_denied user denied ≡ ok other
      → user ≡ other
  unfolding not_denied
  not_denied-user user other (err e) h = absurd (ground arith)
  not_denied-user user other (ok true) h = absurd (ground arith)
  not_denied-user user other (ok false) h = ground arith

  joining_user-ok :
      (user : AuthenticatedUser) (result : Outcome AccessFailure AuthenticatedUser)
      → joining_user result ≡ ok user
      → result ≡ ok user
  unfolding joining_user
  joining_user-ok user (ok other) h = ground arith
  joining_user-ok user (err rejected) h = absurd (ground arith)
  joining_user-ok user (err unavailable) h = absurd (ground arith)

  authenticate-user :
      (verify : Text → Option AuthenticatedUser) (now : ℕ) (d : Denylist) (token : Text)
      (user : AuthenticatedUser)
      → authenticate verify now d token ≡ ok user
      → verify token ≡ some user
  unfolding authenticate
  authenticate-user verify now d token user h = elim (Option-cases (verify token)) [
    | inl e ↦ absurd (ground (arith, e, h))
    | inr (found, e) ↦ e ∙ ap some (not_denied-user found user _ (rw (e, authenticate) at h))
  ]

  authenticated-claims :
      (verify : Text → Option AuthenticatedUser) (now : ℕ) (d : Denylist) (token : Option Text)
      (user : AuthenticatedUser)
      → ((token : Text) (user : AuthenticatedUser)
          → verify token ≡ some user
          → claims token ≡ some user)
      → authenticate_token verify now d token ≡ ok user
      → (t : Text) × (token ≡ some t) × (claims t ≡ some user)
  unfolding authenticate_token authenticate
  authenticated-claims verify now d none user sound h = absurd (ground arith)
  authenticated-claims verify now d (some []) user sound h = absurd (ground arith)
  authenticated-claims verify now d (some (c ∷ cs)) user sound h = (
    c ∷ cs,
    refl,
    sound (c ∷ cs) user (authenticate-user verify now d (c ∷ cs) user (joining_user-ok user _ h)),
  )

  -- The user that joined before with the same token is the same.
  rooms_of_owned :
      (client : Socket) (joined_as : Option AuthenticatedUser) (token : Text)
      (user : AuthenticatedUser)
      → client.token ≡ some token
      → claims token ≡ some user
      → HasRooms joined_as client
      → All (IsRoomOf user) client.rooms
  rooms_of_owned client none token user same claimed owned = rw owned tt
  rooms_of_owned client (some before) token user same claimed ((t, had, claimed_before), rooms) =
      let is : before ≡ user = ground arith in subst (λ u. All (IsRoomOf u) client.rooms) is rooms

  entered-IsOwned :
      (user : AuthenticatedUser) (client : Socket) (token : Text) (result : Outcome JoinError Text)
      → client.token ≡ some token
      → claims token ≡ some user
      → ((order_id : Text) → result ≡ ok order_id → owner (number order_id) ≡ some user.id)
      → IsOwned client
      → IsOwned (entered user client result).1
  unfolding entered
  entered-IsOwned user client token (err e) same claimed own owned = owned
  entered-IsOwned user client token (ok order_id) same claimed own owned = (
    (token, same, claimed),
    All-append (IsRoomOf user) client.rooms (order_room order_id ∷ [])
        (rooms_of_owned client client.user token user same claimed owned)
        ((order_id, refl, own order_id refl), tt),
  )

  join_by-IsOwned :
      (verify : Text → Option AuthenticatedUser) (now : ℕ) (d : Denylist) (db : Db) (id : MessageId)
      (socket : ℕ) (client : Socket) (found : Outcome JoinFailure AuthenticatedUser)
      → IsSound (joins verify now d db id socket)
      → authenticate_token verify now d client.token ≡ found
      → IsOwned client
      → IsOwned (join_by db id client found).1
  unfolding join_by
  join_by-IsOwned verify now d db id socket client (err e) sound h owned = owned
  join_by-IsOwned verify now d db id socket client (ok user) sound h owned =
      let (token, same, claimed) = authenticated-claims verify now d client.token user sound.0 h in
      entered-IsOwned user client token (joinable user (to_id id) db) same claimed
        (λ order_id. joinable-owner user (to_id id) db order_id sound.1) owned

  join_at-IsOwned :
      (verify : Text → Option AuthenticatedUser) (now : ℕ) (d : Denylist) (db : Db) (id : MessageId)
      (socket : ℕ) (clients : List Socket)
      → IsSound (joins verify now d db id socket)
      → All IsOwned clients
      → All IsOwned (join_at verify now d db id socket clients)
  unfolding join_at join_room
  join_at-IsOwned verify now d db id socket [] sound owned = tt
  join_at-IsOwned verify now d db id socket (client ∷ clients) sound owned = (
    elim (Bool-cases (client.id == socket)) [
      | inl same ↦ rw same (join_by-IsOwned verify now d db id socket client _ sound refl owned.0)
      | inr other ↦ rw other owned.0
    ],
    join_at-IsOwned verify now d db id socket clients sound owned.1,
  )

  -- What a delivery leaves, and whom it sends the event to.
  abbrev pub IsReceiver : ℕ → Denylist → OrderStatusEvent → Socket → Type 0
  IsReceiver now d event client =
      (user : AuthenticatedUser) × (token : Text) × (client.user ≡ some user)
      × (client.token ≡ some token)
      × (claims token ≡ some user)
      × (owner (number event.order_id) ≡ some user.id)
      × (is_still_valid now d user ≡ true)

  in_room-owner :
      (user : AuthenticatedUser) (order_id : Text) (rooms : List Text)
      → All (IsRoomOf user) rooms
      → exists (λ r. text_eq r (order_room order_id)) rooms ≡ true
      → owner (number order_id) ≡ some user.id
  unfolding exists text_eq order_room
  in_room-owner user order_id [] owned h = absurd (ground arith)
  in_room-owner user order_id (room ∷ rooms) owned h =
      elim (Bool-cases (text_eq room (order_room order_id))) [
        | inr other ↦ in_room-owner user order_id rooms owned.1 (ground (arith, other, h))
        | inl same ↦
            let ((id, is_room, own), rest) = owned in
            let is = (text_eq_iff id order_id).0 (rw is_room at same) in rw (← is) own
      ]

  receiver :
      (now : ℕ) (d : Denylist) (event : OrderStatusEvent) (client : Socket)
      (joined_as : Option AuthenticatedUser)
      → client.user ≡ joined_as
      → HasRooms joined_as client
      → is_in (order_room event.order_id) client ≡ true
      → may_receive now d client ≡ true
      → IsReceiver now d event client
  unfolding is_in may_receive
  receiver now d event client none e owned inside valid = absurd (ground (arith, e, valid))
  receiver now d event client (some user) e ((token, same, claimed), rooms) inside valid = (
    user,
    token,
    e,
    same,
    claimed,
    in_room-owner user event.order_id client.rooms rooms inside,
    ground (arith, e, valid),
  )

  delivered :
      (now : ℕ) (d : Denylist) (reached : Bool) (event : OrderStatusEvent) (clients : List Socket)
      → All IsOwned clients
      → All (IsReceiver now d event) (deliver now d reached event clients).0
        × All IsOwned (deliver now d reached event clients).1
  unfolding deliver
  delivered now d reached event [] owned = (tt, tt)
  delivered now d reached event (client ∷ clients) owned =
      let (sent, connected) = delivered now d reached event clients owned.1 in
      elim (Bool-cases (reached && is_in (order_room event.order_id) client)) [
        | inr outside ↦ rw outside (sent, (owned.0, connected))
        | inl inside ↦ elim (Bool-cases (may_receive now d client)) [
          | inr stale ↦ rw (inside, stale) (sent, connected)
          | inl valid ↦
              rw (inside, valid)
                (
                  (
                    receiver now d event client client.user refl owned.0 (ground (arith, inside))
                        valid,
                    sent,
                  ),
                  (owned.0, connected),
                )
        ]
      ]

  run-IsOwned :
      (steps : List Step) (clients : List Socket)
      → All IsSound steps
      → All IsOwned clients
      → All IsOwned (run steps clients)
  unfolding run step
  run-IsOwned [] clients sound owned = owned
  run-IsOwned (connects id token ∷ steps) clients sound owned =
      run-IsOwned steps _ sound.1 (refl, owned)
  run-IsOwned (joins verify now d db order_id id ∷ steps) clients sound owned =
      run-IsOwned steps _ sound.1
        (join_at-IsOwned verify now d db order_id id clients sound.0 owned)
  run-IsOwned (delivers now d reached event ∷ steps) clients sound owned =
      run-IsOwned steps _ sound.1 (delivered now d reached event clients owned).1

  -- After any connections, joins and deliveries, if tokens verify as the users that they are signed
  -- for and orders keep their owners, an event of an order is sent only to sockets whose token is
  -- the order's owner's and still valid then: not expired, and neither it nor its session denied.
  pub deliver-IsReceiver :
      (steps : List Step) (now : ℕ) (d : Denylist) (reached : Bool) (event : OrderStatusEvent)
      → All IsSound steps
      → All (IsReceiver now d event) (deliver now d reached event (run steps [])).0
  deliver-IsReceiver steps now d reached event sound =
      (delivered now d reached event (run steps []) (run-IsOwned steps [] sound tt)).0
