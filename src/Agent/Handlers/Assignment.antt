-- ===== src/Agent/Handlers/Assignment.antt =====
-- workers/src/zippy_workers/handlers.py: a driver is matched and assigned to an order.
use new_logistic.Prelude.{
  ℕ, String, concat, Bool, true, false, ◌++◌, ◌&&◌, Option, none, some, List, [], ◌∷◌, ◌||◌, not,
  arith, ◌≡◌, if◌then◌else◌, ◌==◌, string_eq,
}
use new_logistic.Prelude.Json.{
  Json, Fields, int, str, arr, nil, cons, end, field, get, get_or, truthy, or_else, is_null,
  fields_of,
}
use new_logistic.Agent.Handlers.{
  or_empty, Call, transition_order, get_order, match_drivers, assign_provider, Ports, Action,
  approves, has_value, moved, succeeded, succeed, refuse, first_chars, length, Python, text_of, ask,
  advance, convert, value_of,
}

-- `drivers[0]` of a list that is not empty. The port gives a list of dicts, `list[dict]`.
abbrev pub first : Json → Fields
first (arr (cons x xs)) = fields_of x
first _ = end

abbrev pub is_some : Option String → Bool
is_some none = false
is_some (some s) = true

abbrev pub count : Json → ℕ
count (arr xs) = length xs
count _ = 0

module _ (python : Python) (answer : Ports) where
  -- The pickup of an order as a text, from its location or its coordinates.
  unfoldable pub pickup_of : Fields → Option String
  pickup_of order =
      let loc = get "pickup_location" order in
      let lat = get "pickup_latitude" order in
      let lng = get "pickup_longitude" order in
      if truthy loc
      then some (text_of python loc)
      else if is_null lat || is_null lng
      then none
      else some (
          concat "SRID=4326;POINT("
            (concat (text_of python lng) (concat " " (concat (text_of python lat) ")"))))

  unfoldable pub provider_of : Fields → String
  provider_of best =
      text_of python (or_else (get "user_id" best) (get_or "driver_id" (str "") best))

  -- From the matched drivers on.
  pub assign_best : Json → Json → Action
  assign_best order_id drivers =
      let best = first drivers in
      let provider_id = provider_of best in
      let assigned = succeed (
        field "order_id" order_id (
          field "driver_name" (get "driver_name" best) (
            field "provider_id" (str provider_id) (
              field "vehicle_type" (get "vehicle_type" best) (
                field "distance_m" (get "distance_m" best) (
                  field "score" (get "score" best)
                    (field "drivers_found" (int (count drivers)) end))))))) in
      if not (truthy drivers)
      then succeed (
          field "order_id" order_id
            (field "drivers" (arr nil) (field "note" (str "no_available_drivers") end)))
      else if provider_id == ""
      then succeed (
          field "order_id" order_id
            (field "drivers" drivers (field "note" (str "no_valid_provider_id") end)))
      else ask answer (assign_provider (text_of python order_id) provider_id "driver") (λ _.
        advance answer (text_of python order_id) "driver_assigned" assigned assigned
          (λ message. refuse (first_chars 200 message)))

  -- From the pickup on.
  pub match_and_assign : Json → Fields → String → Action
  match_and_assign order_id payload pickup =
      convert (python.to_float (get_or "radius_m" (int 50000) payload)) (λ radius.
        convert (python.to_int (get_or "limit" (int 5) payload)) (λ limit.
          ask answer
            (match_drivers pickup radius limit (get "required_class" payload)
              (get "cargo_weight" payload))
            (assign_best order_id)))

  unfoldable pub assign_driver : Fields → Action
  assign_driver payload =
      let order_id = get "order_id" payload in
      if not (truthy order_id)
      then refuse "missing order_id"
      else ask answer (get_order (text_of python order_id)) (λ order.
        if not (truthy order)
        then refuse "order_not_found"
        else elim (pickup_of (fields_of order)) [
          | none ↦ refuse "no_pickup_location"
          | some pickup ↦ match_and_assign order_id payload pickup
        ])

  -- The calls after a match whose reply has these drivers: the provider is assigned if there is one who
  -- has an id, and then, if the database did that, the order is moved.
  abbrev pub assigns : Json → Bool
  assigns drivers = truthy drivers && not (provider_of (first drivers) == "")

  abbrev pub assigning : String → List Call → Json → List Call
  assigning id before drivers =
      let assign = assign_provider id (provider_of (first drivers)) "driver" in
      if assigns drivers
      then assign
        ∷ (if has_value (answer before assign)
            then transition_order id "driver_assigned" ∷ []
            else [])
      else []

  -- The order ends in its new state, or no driver was there to be assigned.
  abbrev pub settles : String → List Call → Json → Bool
  settles id before drivers =
      let assign = assign_provider id (provider_of (first drivers)) "driver" in
      if assigns drivers
      then has_value (answer before assign)
        && moved (answer (before ++ assign ∷ []) (transition_order id "driver_assigned"))
      else true

  assign_best_moves :
      (order_id drivers : Json) (c d : Call)
      → let id = text_of python order_id in
        let (outcome, calls) = assign_best order_id drivers (c ∷ d ∷ []) in
        (calls ≡ c ∷ d ∷ assigning id (c ∷ d ∷ []) drivers)
        × (succeeded outcome ≡ settles id (c ∷ d ∷ []) drivers)
  unfolding assign_best
  assign_best_moves order_id drivers c d = ground arith

  -- The match that an assignment asks for, and whether it has what it asks with.
  abbrev pub matching : Fields → String → Call
  matching payload pickup =
      match_drivers pickup (value_of (python.to_float (get_or "radius_m" (int 50000) payload)))
        (value_of (python.to_int (get_or "limit" (int 5) payload))) (get "required_class" payload)
        (get "cargo_weight" payload)

  abbrev pub converts : Fields → Bool
  converts payload =
      has_value (python.to_float (get_or "radius_m" (int 50000) payload))
      && has_value (python.to_int (get_or "limit" (int 5) payload))

  match_and_assign_moves :
      (order_id : Json) (payload : Fields) (pickup : String) (c : Call)
      → let id = text_of python order_id in
        let match = matching payload pickup in
        let drivers = answer (c ∷ []) match in
        let (outcome, calls) = match_and_assign order_id payload pickup (c ∷ []) in
        (calls ≡ (
          if converts payload
          then c
            ∷ match
            ∷ (if has_value drivers then assigning id (c ∷ match ∷ []) (value_of drivers) else [])
          else c ∷ []))
        × (succeeded outcome
            ≡ converts payload
              && has_value drivers
              && settles id (c ∷ match ∷ []) (value_of drivers))
  unfolding match_and_assign
  match_and_assign_moves order_id payload pickup c = ground (
    arith,
    assign_best_moves order_id (value_of (answer (c ∷ []) (matching payload pickup))) c
        (matching payload pickup),
  )

  -- An assignment without an order fails and asks for nothing. With one it looks the order up. If the
  -- order is there, has a pickup, and the radius and the limit convert, it matches drivers for that
  -- pickup. If there are drivers and the first of them has an id, it assigns that driver to the order,
  -- and, unless this raises, moves the order to `driver_assigned`. It makes no other call. It succeeds
  -- exactly if it got as far as the drivers, and none could be assigned, or the order was moved, now
  -- or before.
  pub assign_driver_moves :
      (payload : Fields)
      → let id = text_of python (get "order_id" payload) in
        let look = get_order id in
        let found = answer [] look in
        let pickup = pickup_of (fields_of (value_of found)) in
        let match = matching payload (or_empty pickup "") in
        let drivers = answer (look ∷ []) match in
        let matches = approves found && is_some pickup && converts payload in
        let (outcome, calls) = assign_driver payload [] in
        (calls ≡ (
          if not (truthy (get "order_id" payload))
          then []
          else if matches
          then look
            ∷ match
            ∷ (if has_value drivers
                then assigning id (look ∷ match ∷ []) (value_of drivers)
                else [])
          else look ∷ []))
        × (succeeded outcome
            ≡ truthy (get "order_id" payload)
              && matches
              && has_value drivers
              && settles id (look ∷ match ∷ []) (value_of drivers))
  unfolding assign_driver
  assign_driver_moves payload =
      let look = get_order (text_of python (get "order_id" payload)) in
      let pickup = pickup_of (fields_of (value_of (answer [] look))) in
      ground
        (arith, match_and_assign_moves (get "order_id" payload) payload (or_empty pickup "") look)
