-- ===== src/Gateway.antt =====
-- api/gateway.py: the events that the payment provider sends.
pub mod Safe
mod Tests
use text.Mathlib.Text.{starts_with}
use new_logistic.Prelude.{
  ℕ, String, Bool, true, false, Option, none, some, ◌&&◌, ◌||◌, not, ◌==◌, nat_eq, string_eq, ltb,
  leb, if◌then◌else◌,
}
use new_logistic.Prelude.Json.{
  Json, null, bool, int, minus, float, str, arr, obj, Fields, end, get, fields_of, text?,
}

-- `MAX_AMOUNT_MINOR_UNITS`
abbrev pub max_amount_minor_units : ℕ
max_amount_minor_units = 999999999999

pub record GatewayEvent : Type 0 where
  pub provider : String
  pub provider_event_id : String
  pub event_type : String
  pub provider_reference_id : Option String
  pub payment_id : Option String
  pub refund_id : Option String
  pub amount_minor_units : Option ℕ
  pub currency : Option String
  pub notes : Fields
  pub evidence_hash : String

-- What `json.loads` gives: a document, one of the two exceptions that are caught, or another one.
pub data Loaded : Type 0 where
  document : Json → Loaded
  invalid : Loaded
  fails : Loaded

pub data Parsed : Type 0 where
  parsed : GatewayEvent → Parsed
  malformed : String → Parsed
  raised : Parsed

-- `_minor_units`
unfoldable pub minor_units : Json → Option ℕ
minor_units (int n) = if n == 0 || ltb max_amount_minor_units n then none else some n
minor_units _ = none

-- `payload.get(name)`, then its `entity`, where both are dicts
unfoldable pub entity_of : String → Fields → Fields
entity_of name payload = fields_of (get "entity" (fields_of (get name payload)))

abbrev pub is_refund : String → Bool
is_refund event_type = starts_with event_type "refund."

-- The event of a document whose id and type are texts.
unfoldable pub event_of : String → String → Fields → String → GatewayEvent
event_of id event_type payload hash =
    let refund = is_refund event_type in
    let entity = entity_of (if refund then "refund" else "payment") payload in
    record {
      provider = "razorpay";
      provider_event_id = id;
      event_type = event_type;
      provider_reference_id = if refund then none else text? (get "order_id" entity);
      payment_id = if refund then none else text? (get "id" entity);
      refund_id = if refund then text? (get "id" entity) else none;
      amount_minor_units = minor_units (get "amount" entity);
      currency = text? (get "currency" entity);
      notes = fields_of (get "notes" entity);
      evidence_hash = hash;
    }

-- A text that is not empty.
abbrev pub filled : Json → Option String
filled v = elim (text? v) [ none ↦ none | some s ↦ if s == "" then none else some s ]

-- The event of a document that is a dict.
unfoldable pub shape : Fields → String → Parsed
shape fields hash = elim (filled (get "id" fields)) [
  | none ↦ malformed "missing provider event id"
  | some id ↦ elim (filled (get "event" fields)) [
    | none ↦ malformed "missing event type"
    | some event_type ↦ parsed (event_of id event_type (fields_of (get "payload" fields)) hash)
  ]
]

-- `parse_event` after `json.loads`, with `payload_hash`, the SHA-256 of the body
abbrev pub parsed_of : (String → String) → String → Loaded → Parsed
parsed_of payload_hash raw_body invalid = malformed "body is not valid JSON"
parsed_of payload_hash raw_body fails = raised
parsed_of payload_hash raw_body (document (obj fields)) = shape fields (payload_hash raw_body)
parsed_of payload_hash raw_body (document v) = malformed "body is not a JSON object"

-- `parse_event`
unfoldable pub parse_event : (String → String) → (String → Loaded) → String → Parsed
parse_event payload_hash loads raw_body = parsed_of payload_hash raw_body (loads raw_body)
