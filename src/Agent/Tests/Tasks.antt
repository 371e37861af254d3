-- ===== src/Agent/Tests/Tasks.antt =====
-- The handlers (workers/src/zippy_workers/handlers.py) on concrete payloads.
use new_logistic.Prelude.{◌≡◌, refl, true, false, List, [], ◌∷◌}
use new_logistic.Prelude.Json.{
  Fields, end, field, null, int, str, arr, cons, nil, obj, get, get_or, truthy,
}
use new_logistic.Agent.Handlers.{
  Call, Reply, answered, raised, Python, succeeded, has_escaped, transition_order, get_order,
  match_drivers, assign_provider, is_repeat,
}
use new_logistic.Agent.Handlers.Payments.{process_payment_event, process_payment_event_moves}
use new_logistic.Agent.Handlers.Assignment.{
  assign_driver, pickup_of, provider_of, assign_driver_moves,
}

abbrev python : Python
python = record { print = λ v. ""; to_float = λ v. answered v; to_int = λ v. answered v }

abbrev answer : List Call → Call → Reply
answer calls c = answered (obj (field "total_amount" (str "1.0") end))

abbrev repeated : List Call → Call → Reply
repeated calls c = raised "APIError" "Order was Already moved"

abbrev payload : Fields
payload = field "order_id" (str "o1") (
    field "customer_id" (str "c1") (
      field "event" (str "refund.processed") (
        field "action" (str "pickup") (
          field "image_url" (str "u")
            (field "notification_id" (str "n1") (field "user_id" (str "c1") end))))))

-- An event that is no payment moves the order too.
refund_moves :
    (process_payment_event python answer payload []).1
    ≡ transition_order "o1" "inventory_confirmed" ∷ []
unfolding process_payment_event get truthy
refund_moves = refl

-- A message about a move that was made before counts as success.
repeated_succeeds : succeeded (process_payment_event python repeated payload []).0 ≡ true
unfolding process_payment_event get truthy is_repeat
repeated_succeeds = refl

process_payment_event_moves_example :
    let move = transition_order "o1" "inventory_confirmed" in
    let (outcome, calls) = process_payment_event python answer payload [] in
    (calls ≡ move ∷ []) × (succeeded outcome ≡ true) × (has_escaped outcome ≡ false)
unfolding get truthy
process_payment_event_moves_example = process_payment_event_moves python answer payload

-- The order has a pickup, and one driver is near it.
abbrev near : List Call → Call → Reply
near calls (match_drivers pickup radius limit required_class cargo_weight) =
    answered (arr (cons (obj (field "user_id" (str "d1") end)) nil))
near calls c = answered (obj (field "pickup_location" (str "POINT(1 2)") end))

assign_driver_moves_example :
    let (outcome, calls) = assign_driver python near payload [] in
    (calls
      ≡ get_order "o1"
        ∷ match_drivers "POINT(1 2)" (int 50000) (int 5) null null
        ∷ assign_provider "o1" "d1" "driver"
        ∷ transition_order "o1" "driver_assigned"
        ∷ [])
    × (succeeded outcome ≡ true)
unfolding get truthy get_or pickup_of provider_of
assign_driver_moves_example = assign_driver_moves python near payload
