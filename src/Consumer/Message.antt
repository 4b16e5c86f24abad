-- ===== src/Consumer/Message.antt =====
-- messaging/order-placed.consumer.ts, `parseMessage`: which messages meet the contract.
use one_marketplace.Base.{
  ℕ, ◌+◌, ◌-◌, ◌*◌, Bool, true, false, ◌&&◌, Option, none, some, List, [], ◌∷◌, ◌++◌, Outcome, ok,
  err, leb, ◌==◌, if◌then◌else◌,
}
use one_marketplace.Base.Text.{Text, text_eq, is_id}
use one_marketplace.Entities.{OrderPlacedEvent, order_placed_type}
use one_marketplace.Checkout.Input.{JsNumber, whole}

-- A field of the parsed body, as far as the contract reads it; `other` also stands for a missing one.
pub data Field : Type 0 where
  text : Text → Field
  numeric : JsNumber → Field
  other : Field

pub record Content : Type 0 where
  pub type : Field
  pub event_id : Field
  pub order_id : Field
  pub total : Field

-- A message: its id when that is a string, and what `JSON.parse` makes of its content.
pub record ConsumeMessage : Type 0 where
  pub message_id : Option Text
  pub content : Option Content

-- The event, in the fields that the consumer uses.
pub record IncomingEvent : Type 0 where
  pub message_id : Text
  pub event_id : Text
  pub order_id : Text
  pub total : ℕ

pub data PoisonMessageError : Type 0 where
  no_valid_message_id not_valid_json not_the_contract : PoisonMessageError

pub data Place : Type 0 where
  hex dash : Place

-- The value of a hexadecimal digit, of either case.
unfoldable pub hex_value : ℕ → Option ℕ
hex_value c =
    if leb 48 c && leb c 57
    then some (c - 48)
    else if leb 97 c && leb c 102
    then some (c - 87)
    else if leb 65 c && leb c 70
    then some (c - 55)
    else none

abbrev pub dash_code : ℕ
dash_code = 45

unfoldable pub fits : Place → ℕ → Bool
fits hex c = elim (hex_value c) [ none ↦ false | some v ↦ true ]
fits dash c = c == dash_code

unfoldable pub matches : List Place → Text → Bool
matches [] [] = true
matches [] (c ∷ cs) = false
matches (p ∷ ps) [] = false
matches (p ∷ ps) (c ∷ cs) = fits p c && matches ps cs

abbrev pub four : List Place
four = hex ∷ hex ∷ hex ∷ hex ∷ []

abbrev pub uuid_pattern : List Place
uuid_pattern =
    (four ++ four ++ (dash ∷ four) ++ (dash ∷ four) ++ (dash ∷ four))
    ++ ((dash ∷ four) ++ four ++ four)

-- The value that a uuid column stores: the digits, whatever their case.
unfoldable pub uuid_value : ℕ → Text → ℕ
uuid_value v [] = v
uuid_value v (c ∷ cs) = uuid_value (elim (hex_value c) [ none ↦ v | some d ↦ v * 16 + d ]) cs

-- The four fields against the contract.
unfoldable pub contract :
    Text → Field → Field → Field → Field → Outcome PoisonMessageError IncomingEvent
contract message_id (text type) (text event_id) (text order_id) (numeric (whole total)) =
    if text_eq type order_placed_type && is_id order_id
    then ok (record {
      message_id = message_id;
      event_id = event_id;
      order_id = order_id;
      total = total;
    })
    else err not_the_contract
contract message_id type event_id order_id total = err not_the_contract

unfoldable pub parse_message : ConsumeMessage → Outcome PoisonMessageError IncomingEvent
parse_message message = elim message.message_id [
  | none ↦ err no_valid_message_id
  | some message_id ↦
      if matches uuid_pattern message_id
      then elim message.content [
        | none ↦ err not_valid_json
        | some content ↦
            contract message_id content.type content.event_id content.order_id content.total
      ]
      else err no_valid_message_id
]

-- The content that the publisher writes, `JSON.stringify(event)`.
unfoldable pub to_content : OrderPlacedEvent → Content
to_content event = record {
  type = text event.type;
  event_id = text event.event_id;
  order_id = text event.body.order_id;
  total = numeric (whole event.body.total);
}
