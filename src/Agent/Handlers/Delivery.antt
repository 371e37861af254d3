-- ===== src/Agent/Handlers/Delivery.antt =====
-- workers/src/zippy_workers/handlers.py: the status of a delivery is set by hand.
use package.text.Mathlib.TextLemmas.{cons-ne-nil}
use new_logistic.Prelude.{
  String, concat, Bool, true, false, Option, none, some, List, [], ◌∷◌, ◌||◌, not, arith, ◌≡◌, ◌⊎◌,
  inl, inr, refl, if◌then◌else◌, ◌==◌, string_eq, eq_iff,
}
use new_logistic.Prelude.Json.{Json, Fields, null, str, arr, obj, end, field, get, truthy}
use new_logistic.Agent.Handlers.{
  Call, Outcome, transition_order, escaped, Ports, Action, succeed, refuse, first_chars, Python,
  text_of, advance, succeeded, moved,
}

-- `_ACTION_TO_STATUS.get(action)`
abbrev pub status_of : Json → Option String
status_of (str action) =
    if action == "pickup"
    then some "in_transit"
    else if action == "in_transit"
    then some "in_transit"
    else if action == "delivered"
    then some "delivered"
    else none
status_of _ = none

-- A list or a dict is no key of a dict.
abbrev pub is_hashable : Json → Bool
is_hashable (arr xs) = false
is_hashable (obj fields) = false
is_hashable _ = true

-- An action with a status is true.
known_truthy : (action : Json) → (status_of action ≡ none) ⊎ (truthy action ≡ true)
unfolding truthy
known_truthy (str String.[]) = inl refl
known_truthy (str (String.◌∷◌ c s)) =
    inr (ground (arith, eq_iff (String.◌∷◌ c s) "", cons-ne-nil c s))
known_truthy null = inl refl
known_truthy _ = inl refl

module _ (python : Python) (answer : Ports) where
  unfoldable pub update_delivery_status : Fields → Action
  update_delivery_status payload =
      let order_id = get "order_id" payload in
      let action = get "action" payload in
      if not (truthy order_id) || not (truthy action)
      then refuse "missing order_id or action"
      else if not (is_hashable action)
      then (λ calls. (escaped "TypeError" "unhashable type", calls))
      else elim (status_of action) [
        | none ↦ refuse (concat "unknown action: " (text_of python action))
        | some new_status ↦
            advance answer (text_of python order_id) new_status
              (succeed (
                field "order_id" order_id
                  (field "action" action (field "advanced_to" (str new_status) end))))
              (succeed (field "note" (str "idempotent no-op") (field "action" action end)))
              (λ message. refuse (first_chars 200 message))
      ]

  -- The calls and the outcome for a status, if the action has one.
  abbrev pub IsDelivery : String → Option String → Outcome × List Call → Type 0
  IsDelivery id none (outcome, calls) = (calls ≡ []) × (succeeded outcome ≡ false)
  IsDelivery id (some s) (outcome, calls) =
      (calls ≡ transition_order id s ∷ [])
      × (succeeded outcome ≡ moved (answer [] (transition_order id s)))

  -- With an order and an action that is a text, at most one move is asked for, to the status of the
  -- action, and that for a known action alone. The handler succeeds exactly if the move was made, now
  -- or before, and fails for an unknown action.
  pub update_delivery_status-IsDelivery :
      (payload : Fields) {action : String}
      → truthy (get "order_id" payload) ≡ true
      → get "action" payload ≡ str action
      → IsDelivery
          (text_of python (get "order_id" payload))
          (status_of (get "action" payload))
          (update_delivery_status payload [])
  unfolding update_delivery_status
  update_delivery_status-IsDelivery payload order text =
      ground (arith, known_truthy (get "action" payload))
