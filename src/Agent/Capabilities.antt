-- ===== src/Agent/Capabilities.antt =====
-- workers/src/zippy_workers/capabilities.py: what each agent may read, write and call.
pub mod Grants
use new_logistic.Prelude.{
  String, Bool, true, false, Option, none, some, List, [], ◌∷◌, not, ◌&&◌, ◌||◌, ◌==◌, string_eq,
  elem, if◌then◌else◌,
}
use new_logistic.Prelude.Dict.{Dict, lookup}

-- A frozen set is a list.
pub record Capability : Type 0 where
  pub read : List String
  pub write : List String
  pub external : List String
  pub financial : Bool
  pub forbidden : List String

-- `_MATRIX`; the order inside a frozen set says nothing.
unfoldable pub matrix : Dict Capability
matrix =
    (
      "customer_service",
      record {
        read = "orders" ∷ "users" ∷ "notifications" ∷ [];
        write = "notifications" ∷ "messages" ∷ [];
        external = [];
        financial = false;
        forbidden = "admin_actions" ∷ "payments_write" ∷ [];
      },
    )
    ∷ (
      "order_management",
      record {
        read = "orders" ∷ "vehicles" ∷ "drivers" ∷ "companies" ∷ "pricing" ∷ [];
        write = "orders" ∷ "order_events" ∷ "quotes" ∷ [];
        external = "mapbox" ∷ [];
        financial = false;
        forbidden = "payments_capture" ∷ [];
      },
    )
    ∷ (
      "transportation",
      record {
        read = "orders" ∷ "vehicles" ∷ "telemetry" ∷ "routes" ∷ [];
        write = "telemetry" ∷ "tracking" ∷ "alerts_route" ∷ [];
        external = "mapbox" ∷ [];
        financial = false;
        forbidden = "pricing_write" ∷ "payments_any" ∷ [];
      },
    )
    ∷ (
      "resource_management",
      record {
        read = "vehicles" ∷ "drivers" ∷ "companies" ∷ "orders" ∷ [];
        write = "vehicle_status" ∷ "driver_status" ∷ "assignments" ∷ [];
        external = [];
        financial = false;
        forbidden = "payments_any" ∷ [];
      },
    )
    ∷ (
      "payment_settlement",
      record {
        read = "orders" ∷ "payments" ∷ "transactions" ∷ "settlements" ∷ [];
        write = "payments" ∷ "transactions" ∷ "settlements" ∷ [];
        external = "razorpay" ∷ "stripe" ∷ [];
        financial = true;
        forbidden = "order_state_machine_direct" ∷ [];
      },
    )
    ∷ (
      "platform_administration",
      record {
        read = "*" ∷ [];
        write = "admin_actions" ∷ "agent_registry" ∷ "user_flags" ∷ [];
        external = [];
        financial = false;
        forbidden = "financial_self_approval" ∷ [];
      },
    )
    ∷ (
      "communication",
      record {
        read = "notifications" ∷ "messages" ∷ "templates" ∷ "orders" ∷ [];
        write =
            "notification_log" ∷ "notification_queue" ∷ "webhook_events" ∷ "order_documents" ∷ [];
        external = "sms" ∷ "email" ∷ "push" ∷ [];
        financial = false;
        forbidden = "orders_state_machine_write" ∷ "payments_any" ∷ [];
      },
    )
    ∷ []

-- A check that returns, or raises `UnauthorizedCapability`.
pub data Access : Type 0 where
  granted unauthorized : Access

abbrev pub holds : String → String → Capability → Bool
holds scope domain cap =
    if elem domain cap.forbidden
    then false
    else (let pool = if scope == "read" then cap.read else cap.write in
        elem "*" pool || elem domain pool)

unfoldable pub has_capability : String → String → String → Bool
has_capability agent scope domain = elim (lookup agent matrix) [
  | none ↦ false
  | some cap ↦ holds scope domain cap
]

unfoldable pub assert_can_call_external : String → String → Access
assert_can_call_external agent service = elim (lookup agent matrix) [
  | none ↦ unauthorized
  | some cap ↦ if not (elem service cap.external) then unauthorized else granted
]

unfoldable pub assert_financial : String → Access
assert_financial agent = elim (lookup agent matrix) [
  | none ↦ unauthorized
  | some cap ↦ if not cap.financial || elem "*" cap.forbidden then unauthorized else granted
]

unfoldable pub is_forbidden : String → String → Bool
is_forbidden agent action = elim (lookup agent matrix) [
  | none ↦ false
  | some cap ↦ elem action cap.forbidden
]
