-- ===== src/Agent/Handlers/Payments.antt =====
-- workers/src/zippy_workers/handlers.py: a payment event moves its order on.
use new_logistic.Prelude.{false, [], ◌∷◌, ◌||◌, ◌&&◌, not, arith, ◌≡◌, if◌then◌else◌, string_eq}
use new_logistic.Prelude.Json.{Json, Fields, str, end, field, get, truthy, or_else, is_str}
use new_logistic.Agent.Handlers.{
  transition_order, Ports, Action, succeed, refuse, first_chars, Python, text_of, advance, note,
  succeeded, has_escaped, moved,
}

module _ (python : Python) (answer : Ports) where
  unfoldable pub process_payment_event : Fields → Action
  process_payment_event payload =
      let event_type = or_else (get "event_type" payload) (get "event" payload) in
      let order_id = get "order_id" payload in
      if not (truthy order_id)
      then refuse "missing order_id"
      else if is_str "razorpay_payment.failed" event_type
      then succeed
          (field "note" (str "failure recorded upstream") (field "status" (str "failed") end))
      else advance answer (text_of python order_id) "inventory_confirmed"
          (succeed (field "advanced_to" (str "inventory_confirmed") end))
          (succeed (note "idempotent no-op")) (λ message. refuse (first_chars 200 message))

  abbrev pub event_of : Fields → Json
  event_of payload = or_else (get "event_type" payload) (get "event" payload)

  -- The event of a known order asks for one move, to `inventory_confirmed`, unless it reports a failed
  -- payment; any other event, or none, does. The handler never raises, and it succeeds if the move
  -- was made now or before; without an order it asks for nothing and fails.
  pub process_payment_event_moves :
      (payload : Fields)
      → let order_id = get "order_id" payload in
        let move = transition_order (text_of python order_id) "inventory_confirmed" in
        let (outcome, calls) = process_payment_event payload [] in
        let failure = is_str "razorpay_payment.failed" (event_of payload) in
        (calls ≡ (if truthy order_id && not failure then move ∷ [] else []))
        × (succeeded outcome ≡ truthy order_id && (failure || moved (answer [] move)))
        × (has_escaped outcome ≡ false)
  unfolding process_payment_event
  process_payment_event_moves payload = ground arith
