-- ===== src/OrdersApi/Stream.antt =====
-- controllers/orders.controller.ts, streamEvents: what a client is sent after the opening.
use one_marketplace.Base.{
  ℕ, ◌≡◌, refl, ap, subst, inl, inr, List, [], ◌∷◌, ◌++◌, All, Bool-cases, arith, if◌then◌else◌,
}
use one_marketplace.Base.Text.{Text, text_eq}
use one_marketplace.Base.Table.{select}
use one_marketplace.Auth.{AuthenticatedUser}
use one_marketplace.Auth.Denylist.{Denylist}
use one_marketplace.Auth.Access.{is_still_valid}
use one_marketplace.Auth.Allowed.{IsAllowed, is_still_valid-IsAllowed, IsAllowed-is_still_valid}
use one_marketplace.OrderEvents.{OrderStatusEvent}

-- An event that the service emits, and the time and the denylist at which its turn comes.
pub record Emission : Type 0 where
  pub event : OrderStatusEvent
  pub now : ℕ
  pub denylist : Denylist

-- The filter of streamFor
unfoldable pub emissions_for : Text → List Emission → List Emission
emissions_for id [] = []
emissions_for id (e ∷ es) =
    let rest = emissions_for id es in if text_eq e.event.order_id id then e ∷ rest else rest

-- concatMap(isStillValid), takeWhile(allowed)
unfoldable pub while_valid : AuthenticatedUser → List Emission → List Emission
while_valid user [] = []
while_valid user (e ∷ es) =
    let rest = while_valid user es in if is_still_valid e.now e.denylist user then e ∷ rest else []

unfoldable pub streamed : AuthenticatedUser → Text → List Emission → List Emission
streamed user id emitted = while_valid user (emissions_for id emitted)

emissions_for-select :
    (id : Text) (es : List Emission)
    → emissions_for id es ≡ select (λ (e : Emission). text_eq e.event.order_id id) es
unfolding emissions_for select
emissions_for-select id [] = refl
emissions_for-select id (e ∷ es) = ground (arith, emissions_for-select id es)

-- When the turn of the event comes, the user is allowed.
abbrev pub IsAllowedAt : AuthenticatedUser → Emission → Type 0
IsAllowedAt user e = IsAllowed e.now e.denylist user

-- The first of what is not sent came when the user was not allowed.
abbrev pub IsCutOff : AuthenticatedUser → List Emission → Type 0
IsCutOff user [] = Unit
IsCutOff user (e ∷ rest) = ¬ IsAllowedAt user e

-- A beginning that is sent, and what follows it.
pub record IsSent (user : AuthenticatedUser) (own sent : List Emission) : Type 0 where
  pub rest : List Emission
  pub whole : own ≡ sent ++ rest
  pub allowed : All (IsAllowedAt user) sent
  pub cut_off : IsCutOff user rest

while_valid-IsSent :
    (user : AuthenticatedUser) (es : List Emission) → IsSent user es (while_valid user es)
unfolding while_valid
while_valid-IsSent user [] = record { rest = []; whole = refl; allowed = tt; cut_off = tt }
while_valid-IsSent user (e ∷ es) =
    let p = while_valid-IsSent user es in
    elim (Bool-cases (is_still_valid e.now e.denylist user)) [
      | inl valid ↦ rw valid (record {
        rest = p.rest;
        whole = ap (λ xs. e ∷ xs) p.whole;
        allowed = (is_still_valid-IsAllowed e.now e.denylist user valid, p.allowed);
        cut_off = p.cut_off;
      })
      | inr ended ↦ rw ended (record {
        rest = e ∷ es;
        whole = refl;
        allowed = tt;
        cut_off = λ a. ground (arith, ended, IsAllowed-is_still_valid e.now e.denylist user a);
      })
    ]

-- After the opening, a client is sent the events of its order, in their order and without a gap, up
-- to the first whose turn comes when the user is not allowed, and no further: a user is allowed as
-- long as the token has not expired and the denylist, in sync, has neither it nor its session.
pub streamed-IsSent :
    (user : AuthenticatedUser) (id : Text) (emitted : List Emission)
    → IsSent user
        (select (λ (e : Emission). text_eq e.event.order_id id) emitted)
        (streamed user id emitted)
unfolding streamed
streamed-IsSent user id emitted =
    subst (λ own. IsSent user own (while_valid user (emissions_for id emitted)))
      (emissions_for-select id emitted) (while_valid-IsSent user (emissions_for id emitted))
