-- ===== src/Telemetry.antt =====
-- workers/src/zippy_workers/telemetry_contract.py: which fields telemetry may have.
pub mod Redaction
mod Tests
use new_logistic.Prelude.{
  ℕ, String, concat, Bool, true, false, Option, none, some, List, [], ◌∷◌, map, ◌==◌, nat_eq, ◌||◌,
  if◌then◌else◌,
}
use new_logistic.Prelude.Text.{codes, codes_eq, lower, strip}
use new_logistic.Prelude.Json.{Json, Fields, end, field}

pub data FieldClassification : Type 0 where
  permitted restricted prohibited : FieldClassification

abbrev pub permitted_fields : List String
permitted_fields =
    "trace_id" ∷ "span_id" ∷ "parent_span_id" ∷ "correlation_id" ∷ "service_name" ∷ "operation_name"
    ∷ "agent_name" ∷ "task_type" ∷ "event_type" ∷ "model_alias" ∷ "provider_alias" ∷ "timestamp"
    ∷ "start_time" ∷ "end_time" ∷ "latency_ms" ∷ "input_tokens" ∷ "output_tokens" ∷ "total_tokens"
    ∷ "estimated_cost_cents" ∷ "confidence" ∷ "status_code" ∷ "success" ∷ "error_code"
    ∷ "error_class" ∷ "policy_outcome" ∷ "guardian_decision" ∷ "guardian_reason" ∷ "task_state"
    ∷ "retry_count" ∷ "sample_rate" ∷ "environment" ∷ "pseudonymous_tenant_id"
    ∷ "pseudonymous_actor_id" ∷ "pseudonymous_workflow_id" ∷ []

abbrev pub prohibited_fields : List String
prohibited_fields =
    "password" ∷ "secret" ∷ "token" ∷ "api_key" ∷ "apikey" ∷ "authorization" ∷ "cookie"
    ∷ "database_url" ∷ "supabase_service_role_key" ∷ "razorpay_key_id" ∷ "razorpay_key_secret"
    ∷ "razorpay_webhook_secret" ∷ "odoo_api_key" ∷ "paperclip_api_key" ∷ "hermes_api_key"
    ∷ "langfuse_public_key" ∷ "langfuse_secret_key" ∷ "smtp_password" ∷ "encryption_secret"
    ∷ "webhook_secret" ∷ "service_role_key" ∷ "jwt" ∷ "access_token" ∷ "refresh_token"
    ∷ "customer_name" ∷ "customer_email" ∷ "customer_phone" ∷ "driver_name" ∷ "driver_email"
    ∷ "driver_phone" ∷ "consignee_name" ∷ "consignee_email" ∷ "consignee_phone" ∷ "pickup_address"
    ∷ "delivery_address" ∷ "address" ∷ "email" ∷ "phone" ∷ "payment_amount" ∷ "total_amount"
    ∷ "advance_amount" ∷ "refund_amount" ∷ "settlement_amount" ∷ "transaction_id"
    ∷ "razorpay_payment_id" ∷ "razorpay_order_id" ∷ "stripe_id" ∷ "bank_details" ∷ "invoice_id"
    ∷ "sale_order_id" ∷ "odoo_partner_id" ∷ "ledger_entry" ∷ "tax_record" ∷ "raw_prompt"
    ∷ "raw_response" ∷ "system_prompt" ∷ "prompt_body" ∷ "response_body" ∷ "input_text"
    ∷ "output_text" ∷ "cargo_description" ∷ "cargo_details" ∷ "special_instructions" ∷ "order_notes"
    ∷ []

abbrev pub restricted_fields : List String
restricted_fields =
    "order_id" ∷ "trip_id" ∷ "vehicle_id" ∷ "driver_id" ∷ "user_id" ∷ "tenant_id" ∷ "actor_id"
    ∷ "workflow_id" ∷ "grant_id" ∷ "decision_id" ∷ "notification_id" ∷ "document_id"
    ∷ "exception_message" ∷ "stack_trace" ∷ "error_message" ∷ "policy_checksum" ∷ "payload_hash"
    ∷ "denial_reason" ∷ []

-- `name in fields`, for a name as its characters
abbrev pub listed : List ℕ → List String → Bool
listed name [] = false
listed name (f ∷ fields) = codes_eq (codes f) name || listed name fields

-- `name.lower().strip()`: of the letters outside of ASCII, the Kelvin sign alone has one of ASCII as
-- its lower case, and the names of the fields are ASCII.
unfoldable pub normal : String → List ℕ
unfolding lower strip
normal name = strip (map (λ c. if c == 0x212a then b'k' else c) (lower (codes name)))

abbrev pub classify_name : List ℕ → FieldClassification
classify_name name =
    if listed name permitted_fields
    then permitted
    else if listed name prohibited_fields
    then prohibited
    else if listed name restricted_fields
    then restricted
    else prohibited

unfoldable pub classify_field : String → FieldClassification
unfolding normal
classify_field name = classify_name (normal name)

abbrev pub is_permitted : FieldClassification → Bool
is_permitted permitted = true
is_permitted _ = false

unfoldable pub is_safe_for_telemetry : String → Bool
is_safe_for_telemetry name = is_permitted (classify_field name)

-- `FieldClassification(...).value`
abbrev pub value : FieldClassification → String
value permitted = "permitted"
value restricted = "restricted"
value prohibited = "prohibited"

-- The violations of an event's fields; the event is valid where there are none.
unfoldable pub violations : Fields → List String
violations end = []
violations (field k v fields) =
    let rest = violations fields in
    let c = classify_field k in
    if is_permitted c then rest else concat k (concat ":" (value c)) ∷ rest

unfoldable pub validate_event_fields : Fields → Bool × List String
unfolding violations
validate_event_fields event =
    (elim (violations event) [ [] ↦ true | _ ∷ _ ↦ false ], violations event)
