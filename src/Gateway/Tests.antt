-- ===== src/Gateway/Tests.antt =====
-- api/gateway.py on concrete events.
use new_logistic.Prelude.{◌≡◌, refl, true, none, some}
use new_logistic.Prelude.Json.{int, str, obj, Fields, end, field, get, get_or}
use new_logistic.Gateway.{
  GatewayEvent, document, parsed, parse_event, shape, event_of, entity_of, minor_units,
}
use new_logistic.Gateway.Safe.{is_safe, IsRead, parse_event-is_safe}

-- A captured payment of one rupee, with an order in its notes.
abbrev entity : Fields
entity = field "id" (str "pay_1") (
    field "order_id" (str "order_1")
      (field "amount" (int 100) (field "notes" (obj (field "zippy_order_id" (str "z") end)) end)))

abbrev body : Fields
body = field "id" (str "evt_1") (
    field "event" (str "payment.captured")
      (field "payload" (obj (field "payment" (obj (field "entity" (obj entity) end)) end)) end))

abbrev captured : GatewayEvent
captured = record {
  provider = "razorpay";
  provider_event_id = "evt_1";
  event_type = "payment.captured";
  provider_reference_id = some "order_1";
  payment_id = some "pay_1";
  refund_id = none;
  amount_minor_units = some 100;
  currency = none;
  notes = field "zippy_order_id" (str "z") end;
  evidence_hash = "hash";
}

is_captured : parse_event (λ raw. "hash") (λ raw. document (obj body)) "raw" ≡ parsed captured
unfolding parse_event shape event_of entity_of minor_units get get_or
is_captured = refl

parse_event-is_safe_example :
    IsRead (obj body) captured × (is_safe captured ≡ true) × (captured.evidence_hash ≡ "hash")
parse_event-is_safe_example =
    parse_event-is_safe (λ raw. "hash") (λ raw. document (obj body)) "raw" captured is_captured
