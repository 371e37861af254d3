-- ===== src/Agent/Handlers/Placement.antt =====
-- workers/src/zippy_workers/handlers.py: an order is placed.
use new_logistic.Prelude.{
  String, true, false, List, [], ◌∷◌, ◌||◌, ◌&&◌, not, arith, ◌≡◌, if◌then◌else◌, string_eq,
}
use new_logistic.Prelude.Json.{
  Json, Fields, int, str, end, field, get, get_or, truthy, is_str, fields_of,
}
use new_logistic.Agent.Handlers.{
  Call, transition_order, generate_quote, validate_payment_plan, result, Ports, Action, succeed,
  refuse, first_chars, Python, text_of, ask, advance, convert, approves,
}

module _ (python : Python) (answer : Ports) where
  -- The advance that the mode asks for.
  pub advance_of : Json → Json → Json → Json → Json
  advance_of mode given advance total =
      if is_str "full" mode && not (truthy given)
      then total
      else if is_str "to_pay" mode
      then int 0
      else advance

  -- From the plan on.
  place_planned : Json → Json → Json → Json → Json → Action
  place_planned order_id quote total mode advance_amount =
      let placed = succeed (
        field "order_id" order_id
          (field "total_amount" total (field "quote" quote (field "payment_mode" mode end)))) in
      ask answer (validate_payment_plan mode total advance_amount) (λ plan.
        if not (truthy plan)
        then (λ calls. (
          result (record {
            ok = false;
            detail =
                field "error" (str "invalid_payment_plan")
                  (field "mode" mode (field "total" total (field "advance" advance_amount end)));
          }),
          calls,
        ))
        else advance answer (text_of python order_id) "pending" placed placed
            (λ message. refuse (first_chars 200 message)))

  unfoldable pub place_order : Fields → Action
  unfolding place_planned
  place_order payload =
      let order_id = get "order_id" payload in
      let mode = get_or "payment_mode" (str "full") payload in
      if not (truthy order_id) || not (truthy (get "customer_id" payload))
      then refuse "missing order_id or customer_id"
      else ask answer (generate_quote (text_of python order_id)) (λ quote.
        if not (truthy quote)
        then refuse "quote_generation_failed"
        else convert (python.to_float (get_or "total_amount" (int 0) (fields_of quote))) (λ total.
          convert (python.to_float (get_or "advance_amount" (int 0) payload)) (λ given.
            place_planned order_id quote total mode
              (advance_of mode (get "advance_amount" payload) given total))))

  -- The calls of a placement: a quote; then its plan; then, exactly if the plan is approved, the move
  -- of the order to `pending`.
  abbrev pub IsPlacement : String → List Call → Type 0
  IsPlacement id (generate_quote i ∷ []) = i ≡ id
  IsPlacement id (generate_quote i ∷ validate_payment_plan m t a ∷ []) =
      (i ≡ id) × (approves (answer (generate_quote i ∷ []) (validate_payment_plan m t a)) ≡ false)
  IsPlacement id (generate_quote i ∷ validate_payment_plan m t a ∷ transition_order j s ∷ []) =
      (i ≡ id)
      × (j ≡ id)
      × (s ≡ "pending")
      × (approves (answer (generate_quote i ∷ []) (validate_payment_plan m t a)) ≡ true)
  IsPlacement id _ = ⊥

  -- The placement of an order of a customer asks for its quote, then, if at all, for its payment plan,
  -- and then for the move to `pending`, exactly if the plan is approved. It makes no other call.
  pub place_order-IsPlacement :
      (payload : Fields)
      → truthy (get "order_id" payload) ≡ true
      → truthy (get "customer_id" payload) ≡ true
      → IsPlacement (text_of python (get "order_id" payload)) (place_order payload []).1
  unfolding place_order
  place_order-IsPlacement payload order customer = ground arith
