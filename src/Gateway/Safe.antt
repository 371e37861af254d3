-- ===== src/Gateway/Safe.antt =====
-- api/gateway.py: what every parsed event has.
use new_logistic.Prelude.{
  ℕ, ◌≡◌, refl, String, Bool, true, false, Option, none, some, ◌&&◌, not, ◌==◌, nat_eq, string_eq,
  if◌then◌else◌, List, [], ◌∷◌, ◌≤◌, ◌↔◌, arith, Bool-cases, Option-cases, inl, inr, subst, sym, ap,
  ◌∙◌,
}
use new_logistic.Prelude.Json.{Json, Fields, get, get_or, fields_of, text?}
use new_logistic.Gateway.{
  GatewayEvent, Loaded, document, invalid, fails, parsed, minor_units, entity_of, is_refund,
  event_of, filled, shape, parsed_of, parse_event,
}

abbrev pub is_none : {A : Type 0} → Option A → Bool
is_none none = true
is_none (some a) = false

-- What stands in a document under keys one after another, `null` where a key is missing.
abbrev pub at : List String → Json → Json
at [] v = v
at (k ∷ ks) (Json.obj fields) = at ks (get k fields)
at (k ∷ ks) _ = Json.null

-- Where the amount of an event of a type stands in the body.
abbrev pub amount_path : String → List String
amount_path event_type =
    "payload" ∷ (if is_refund event_type then "refund" else "payment") ∷ "entity" ∷ "amount" ∷ []

-- The document of a body, `null` where it has none.
abbrev pub document_of : Loaded → Json
document_of (document v) = v
document_of _ = Json.null

abbrev pub is_object : Json → Bool
is_object (Json.obj fields) = true
is_object _ = false

-- The amount that a JSON value says: an integer from 1 to the greatest one.
abbrev pub Says : Json → ℕ → Type 0
Says v n = (v ≡ Json.int n) × (1 ≤ n) × (n ≤ 999999999999)

minor_units-Says : (v : Json) (n : ℕ) → (minor_units v ≡ some n) ↔ Says v n
unfolding minor_units
minor_units-Says (Json.int m) n = ground arith
minor_units-Says Json.null n = ground arith
minor_units-Says (Json.bool b) n = ground arith
minor_units-Says (Json.minus m) n = ground arith
minor_units-Says (Json.float t) n = ground arith
minor_units-Says (Json.str t) n = ground arith
minor_units-Says (Json.arr items) n = ground arith
minor_units-Says (Json.obj fields) n = ground arith

-- A refund names neither an order nor a payment, and anything else no refund; the id and the type are
-- not empty.
abbrev pub is_safe : GatewayEvent → Bool
is_safe e =
    (if is_refund e.event_type
      then is_none e.provider_reference_id && is_none e.payment_id
      else is_none e.refund_id)
    && not (e.provider_event_id == "")
    && not (e.event_type == "")

at-null : (ks : List String) → at ks Json.null ≡ Json.null
at-null [] = refl
at-null (k ∷ ks) = refl

at-fields_of :
    (k : String) (ks : List String) (v : Json) → at (k ∷ ks) v ≡ at ks (get k (fields_of v))
unfolding get get_or
at-fields_of k ks (Json.obj fields) = refl
at-fields_of k ks Json.null = sym (at-null ks)
at-fields_of k ks (Json.bool b) = sym (at-null ks)
at-fields_of k ks (Json.int n) = sym (at-null ks)
at-fields_of k ks (Json.minus n) = sym (at-null ks)
at-fields_of k ks (Json.float t) = sym (at-null ks)
at-fields_of k ks (Json.str t) = sym (at-null ks)
at-fields_of k ks (Json.arr items) = sym (at-null ks)

-- The code's way to a value of an entity is the path to it.
entity_of-at :
    (name key : String) (fields : Fields)
    → get key (entity_of name (fields_of (get "payload" fields)))
      ≡ at ("payload" ∷ name ∷ "entity" ∷ key ∷ []) (Json.obj fields)
unfolding entity_of
entity_of-at name key fields =
    let payload = get "payload" fields in
    let inner = get name (fields_of payload) in
    sym (
      at-fields_of name ("entity" ∷ key ∷ []) payload
      ∙ at-fields_of "entity" (key ∷ []) inner
      ∙ at-fields_of key [] (get "entity" (fields_of inner)))

-- What an event Says of its document: the id, the type, the ids of the order, the payment and the
-- refund, and the amount.
pub record IsRead (doc : Json) (e : GatewayEvent) : Type 0 where
  pub object : is_object doc ≡ true
  pub id : at ("id" ∷ []) doc ≡ Json.str e.provider_event_id
  pub type : at ("event" ∷ []) doc ≡ Json.str e.event_type
  pub order : e.provider_reference_id ≡ (
      if is_refund e.event_type
      then none
      else text? (at ("payload" ∷ "payment" ∷ "entity" ∷ "order_id" ∷ []) doc))
  pub payment : e.payment_id ≡ (
      if is_refund e.event_type
      then none
      else text? (at ("payload" ∷ "payment" ∷ "entity" ∷ "id" ∷ []) doc))
  pub refund : e.refund_id ≡ (
      if is_refund e.event_type
      then text? (at ("payload" ∷ "refund" ∷ "entity" ∷ "id" ∷ []) doc)
      else none)
  pub amount :
      (n : ℕ) → (e.amount_minor_units ≡ some n) ↔ Says (at (amount_path e.event_type) doc) n

event_of-IsRead :
    (id event_type : String) (fields : Fields) (hash : String)
    → get "id" fields ≡ Json.str id
    → get "event" fields ≡ Json.str event_type
    → IsRead (Json.obj fields) (event_of id event_type (fields_of (get "payload" fields)) hash)
unfolding event_of
event_of-IsRead id event_type fields hash named typed = elim (Bool-cases (is_refund event_type)) [
  | inl refund ↦ record {
    object = refl;
    id = named;
    type = typed;
    order = rw (refund) refl;
    payment = rw (refund) refl;
    refund = rw (refund) (ap text? (entity_of-at "refund" "id" fields));
    amount = λ n. rw (refund) (
        subst
          (λ v.
            (minor_units v ≡ some n)
            ↔ Says (at ("payload" ∷ "refund" ∷ "entity" ∷ "amount" ∷ []) (Json.obj fields)) n)
          (sym (entity_of-at "refund" "amount" fields))
          (minor_units-Says (at ("payload" ∷ "refund" ∷ "entity" ∷ "amount" ∷ []) (Json.obj fields))
            n));
  }
  | inr other ↦ record {
    object = refl;
    id = named;
    type = typed;
    order = rw (other) (ap text? (entity_of-at "payment" "order_id" fields));
    payment = rw (other) (ap text? (entity_of-at "payment" "id" fields));
    refund = rw (other) refl;
    amount = λ n. rw (other) (
        subst
          (λ v.
            (minor_units v ≡ some n)
            ↔ Says (at ("payload" ∷ "payment" ∷ "entity" ∷ "amount" ∷ []) (Json.obj fields)) n)
          (sym (entity_of-at "payment" "amount" fields))
          (minor_units-Says
            (at ("payload" ∷ "payment" ∷ "entity" ∷ "amount" ∷ []) (Json.obj fields)) n));
  }
]

event_of-is_safe :
    (id event_type : String) (payload : Fields) (hash : String)
    → (id == "") ≡ false
    → (event_type == "") ≡ false
    → is_safe (event_of id event_type payload hash) ≡ true
unfolding event_of
event_of-is_safe id event_type payload hash named typed =
    ground (arith, named, typed, Bool-cases (is_refund event_type))

filled_text :
    (b : Bool) (t s : String) → (if b then none else some t) ≡ some s → (b ≡ false) × (t ≡ s)
filled_text true t s e = absurd (cc)
filled_text false t s e = (refl, cc)

filled-named : (v : Json) (s : String) → filled v ≡ some s → ((s == "") ≡ false) × (v ≡ Json.str s)
filled-named (Json.str t) s e =
    let here : ((t == "") ≡ false) × (t ≡ s) = filled_text (t == "") t s e in
    (subst (λ x. (x == "") ≡ false) here.1 here.0, ap Json.str here.1)
filled-named Json.null s e = absurd (ground (arith, e))
filled-named (Json.bool b) s e = absurd (ground (arith, e))
filled-named (Json.int n) s e = absurd (ground (arith, e))
filled-named (Json.minus n) s e = absurd (ground (arith, e))
filled-named (Json.float t) s e = absurd (ground (arith, e))
filled-named (Json.arr items) s e = absurd (ground (arith, e))
filled-named (Json.obj fields) s e = absurd (ground (arith, e))

shape-is_safe :
    (fields : Fields) (hash : String) (e : GatewayEvent)
    → shape fields hash ≡ parsed e
    → IsRead (Json.obj fields) e × (is_safe e ≡ true) × (e.evidence_hash ≡ hash)
unfolding shape event_of
shape-is_safe fields hash e h = elim (Option-cases (filled (get "id" fields))) [
  | inl missing ↦ absurd (ground (arith, missing))
  | inr id ↦ elim (Option-cases (filled (get "event" fields))) [
    | inl missing ↦ absurd (ground (arith, id.1, missing))
    | inr type ↦
        let payload = fields_of (get "payload" fields) in
        let same : event_of id.0 type.0 payload hash ≡ e = ground (arith, id.1, type.1) in
        let named = filled-named (get "id" fields) id.0 id.1 in
        let typed = filled-named (get "event" fields) type.0 type.1 in
        let read = event_of-IsRead id.0 type.0 fields hash named.1 typed.1 in
        let safe = event_of-is_safe id.0 type.0 payload hash named.0 typed.0 in
        (
          subst (λ q. IsRead (Json.obj fields) q) same read,
          subst (λ q. is_safe q ≡ true) same safe,
          subst (λ q. q.evidence_hash ≡ hash) same refl,
        )
  ]
]

-- An event is parsed only from a body that is a JSON object with a type and an id that are not empty
-- texts. A refund has the id of the refund's entity and neither an order nor a payment; any other
-- event has the order and the id of the payment's entity and no refund. The amount is the one of that
-- entity where it is an integer from 1 to 999999999999, and else none. The event carries the digest of
-- its body.
pub parse_event-is_safe :
    (payload_hash : String → String) (loads : String → Loaded) (raw_body : String)
    (e : GatewayEvent)
    → parse_event payload_hash loads raw_body ≡ parsed e
    → IsRead (document_of (loads raw_body)) e
      × (is_safe e ≡ true)
      × (e.evidence_hash ≡ payload_hash raw_body)
unfolding parse_event
parse_event-is_safe payload_hash loads raw_body e h = go (loads raw_body) h
  where
    go :
        (x : Loaded)
        → parsed_of payload_hash raw_body x ≡ parsed e
        → IsRead (document_of x) e × (is_safe e ≡ true) × (e.evidence_hash ≡ payload_hash raw_body)
    go (document (Json.obj fields)) h = shape-is_safe fields (payload_hash raw_body) e h
    go (document Json.null) h = absurd (cc)
    go (document (Json.bool b)) h = absurd (cc)
    go (document (Json.int n)) h = absurd (cc)
    go (document (Json.minus n)) h = absurd (cc)
    go (document (Json.float t)) h = absurd (cc)
    go (document (Json.str t)) h = absurd (cc)
    go (document (Json.arr items)) h = absurd (cc)
    go invalid h = absurd (cc)
    go fails h = absurd (cc)
