-- ===== src/Agent/Handlers.antt =====
-- workers/src/zippy_workers/handlers.py: the ports, and what the handlers share. They say what the tasks do to orders, documents and notifications.
-- The database, the OCR service and the sender are ports: `answer` gives what the next call gets,
-- from the calls made before, and the state is the list of these calls.
pub mod Payments
pub mod Documents
pub mod Notifications
pub mod Placement
pub mod Assignment
pub mod Delivery
use new_logistic.Prelude.{
  ℕ, zero, suc, String, concat, Bool, true, false, Option, none, some, List, [], ◌∷◌, ◌++◌, ◌||◌,
  ◌&&◌, not, if◌then◌else◌,
}
use new_logistic.Prelude.Text.{codes, lower, contains}
use new_logistic.Prelude.Json.{
  Json, Items, Fields, null, bool, int, float, str, arr, obj, nil, cons, end, field, get, get_or,
  truthy, or_else, is_str, is_null, fields_of,
}

-- A call through a port, with the arguments that the handlers choose.
pub data Call : Type 0 where
  transition_order : String → String → Call
  fetch_text : Json → Call
  upsert_document : String → Json → Json → Json → Json → Json → Json → Call
  send : String → Json → Json → Json → Call
  mark_notification_sent : String → Json → Call
  mark_notification_failed : String → Json → Call
  log_notification : String → Json → Json → Json → Json → Json → Json → String → Call
  generate_quote : String → Call
  validate_payment_plan : Json → Json → Json → Call
  get_order : String → Call
  match_drivers : String → Json → Json → Json → Json → Call
  assign_provider : String → String → String → Call

-- A port answers with a value, or raises an exception of a type, with a text.
pub data Reply : Type 0 where
  answered : Json → Reply
  raised : String → String → Reply

pub record HandlerResult : Type 0 where
  pub ok : Bool
  pub detail : Fields

-- How a handler ends.
pub data Outcome : Type 0 where
  result : HandlerResult → Outcome
  escaped : String → String → Outcome

abbrev pub Ports : Type 0
Ports = List Call → Call → Reply

-- What a handler does: its outcome and the calls made, from the calls made before.
abbrev pub Action : Type 0
Action = List Call → Outcome × List Call

abbrev pub succeed : Fields → Action
succeed detail calls = (result (record { ok = true; detail = detail }), calls)

abbrev pub refuse : String → Action
refuse message calls =
    (result (record { ok = false; detail = field "error" (str message) end }), calls)

-- `s[:n]`
pub first_chars : ℕ → String → String
first_chars zero s = String.[]
first_chars (suc n) String.[] = String.[]
first_chars (suc n) (String.◌∷◌ c s) = String.◌∷◌ c (first_chars n s)

-- `"Invalid transition" in msg or "already" in msg.lower()`
unfoldable pub is_repeat : String → Bool
unfolding contains lower
is_repeat message =
    contains (codes "Invalid transition") (codes message)
    || contains (codes "already") (lower (codes message))

pub length : Items → ℕ
length nil = 0
length (cons x xs) = suc (length xs)

-- `print` is `str(...)` of a value that is no text, `to_float` and `to_int` the conversions of Python.
pub record Python : Type 0 where
  pub print : Json → String
  pub to_float : Json → Reply
  pub to_int : Json → Reply

module _ (python : Python) where
  -- `str(v)`
  abbrev pub text_of : Json → String
  text_of (str s) = s
  text_of v = python.print v

module _ (answer : Ports) where
  -- A call whose exception the handler does not catch.
  abbrev pub ask : Call → (Json → Action) → Action
  ask c k calls = elim (answer calls c) [
    | answered v ↦ k v (calls ++ c ∷ [])
    | raised name message ↦ (escaped name message, calls ++ c ∷ [])
  ]

  -- `try: db.transition_order(...)`: done, done before, or refused with another message.
  abbrev pub advance : String → String → Action → Action → (String → Action) → Action
  advance order_id status done repeated refused calls =
      let c = transition_order order_id status in
      elim (answer calls c) [
        | answered v ↦ done (calls ++ c ∷ [])
        | raised name message ↦
            if is_repeat message
            then repeated (calls ++ c ∷ [])
            else refused message (calls ++ c ∷ [])
      ]

abbrev pub note : String → Fields
note message = field "note" (str message) end

-- A conversion whose exception the handler does not catch.
abbrev pub convert : Reply → (Json → Action) → Action
convert (answered v) k = k v
convert (raised name message) k = λ calls. (escaped name message, calls)

-- What a reply grants: a plan, for one.
abbrev pub approves : Reply → Bool
approves (answered v) = truthy v
approves (raised name message) = false

-- The value of a reply, `null` for an exception.
abbrev pub value_of : Reply → Json
value_of (answered v) = v
value_of (raised name message) = null

-- The handler came back with `ok`.
abbrev pub succeeded : Outcome → Bool
succeeded (result r) = r.ok
succeeded (escaped name message) = false

abbrev pub has_escaped : Outcome → Bool
has_escaped (result r) = false
has_escaped (escaped name message) = true

-- A move of an order was made, or had been made before.
abbrev pub moved : Reply → Bool
moved (answered v) = true
moved (raised name message) = is_repeat message

-- The call did not raise.
abbrev pub has_value : Reply → Bool
has_value (answered v) = true
has_value (raised name message) = false

-- The sender's result says that the notification went out.
abbrev pub is_sent : Reply → Bool
is_sent (answered v) = truthy (get "ok" (fields_of v))
is_sent (raised name message) = false

abbrev pub or_empty : Option String → String → String
or_empty none d = d
or_empty (some s) d = s
