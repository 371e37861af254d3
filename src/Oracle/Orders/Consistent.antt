-- ===== src/Oracle/Orders/Consistent.antt =====
-- prototypes/xano/reference_model.py: every call keeps an order's state, its assignment and its job
-- together.
use new_logistic.Prelude.{
  ℕ, refl, subst, String, Bool, true, List, [], ◌∷◌, ◌==◌, ◌&&◌, string_eq, not, arith, Bool-cases,
  Option-cases, inl, inr, ltb, leb, nat_eq, ◌+◌,
}
use new_logistic.Prelude.Json.{Json, str}
use new_logistic.Oracle.{forbidden, Principal, Db, rowcount, find, any}
use new_logistic.Oracle.Leads.{transaction-Leads}
use new_logistic.Oracle.Outbox.{is_free, leased, is_held, Lease, claim, acknowledge}
use new_logistic.Oracle.Orders.{
  create_order, assign, pair, commanded, creation, assignment, seed_vehicle,
}
use new_logistic.Oracle.Orders.Assigned.{IsConsistent, any-update}
use new_logistic.Oracle.Orders.Steps.{creation-Leads, assignment-Leads, commanded-Leads}

-- A call that writes one of the tables, whoever makes it.
pub data Call : Type 0 where
  creates : Principal → String → String → Call
  assigns : Principal → String → String → String → Bool → Call
  seeds : String → String → String → Bool → Call
  claims : String → ℕ → ℕ → Call
  acknowledges : Lease → String → ℕ → Call

abbrev pub run : (Json → String) → Call → Db → Db
run fingerprint (creates p order key) db = (create_order fingerprint p order key db).1
run fingerprint (assigns p order vehicle key fails) db =
    (assign fingerprint p order vehicle key fails db).1
run fingerprint (seeds vehicle tenant vendor eligible) db =
    (seed_vehicle vehicle tenant vendor eligible db).1
run fingerprint (claims token now ttl) db = (claim token now ttl db).1
run fingerprint (acknowledges lease token now) db = (acknowledge lease token now db).1

abbrev pub run_all : (Json → String) → List Call → Db → Db
run_all fingerprint [] db = db
run_all fingerprint (call ∷ calls) db = run_all fingerprint calls (run fingerprint call db)

-- `initialize`
abbrev pub initial : ℕ → Db
initial cap = record {
  orders = [];
  vehicles = [];
  assignments = [];
  commands = [];
  audit = [];
  outbox = [];
  payments = [];
  events = [];
  refunds = [];
  cap = cap;
  reserved = 0;
  grants = [];
  reservations = [];
}

run-IsConsistent :
    (fingerprint : Json → String) (call : Call) (db : Db)
    → IsConsistent db
    → IsConsistent (run fingerprint call db)
unfolding create_order assign seed_vehicle claim acknowledge
run-IsConsistent fingerprint (creates p order key) db c =
    transaction-Leads IsConsistent (p.role == "customer") forbidden
      (commanded fingerprint p "create" key (str order) (creation fingerprint p order key)) db
      (commanded-Leads fingerprint p "create" key (str order) (creation fingerprint p order key)
        (creation-Leads fingerprint p order key))
      c
run-IsConsistent fingerprint (assigns p order vehicle key fails) db c =
    let body = assignment fingerprint p order vehicle key fails in
    transaction-Leads IsConsistent (p.role == "dispatcher") forbidden
      (commanded fingerprint p "assign" key (pair order vehicle) body) db
      (commanded-Leads fingerprint p "assign" key (pair order vehicle) body
        (assignment-Leads fingerprint p order vehicle key fails))
      c
run-IsConsistent fingerprint (seeds vehicle tenant vendor eligible) db c = record {
  assigned =
      λ id. ground (arith, c.assigned id, Bool-cases (any (λ v. v.id == vehicle) db.vehicles));
  queued = λ id. ground (arith, c.queued id, Bool-cases (any (λ v. v.id == vehicle) db.vehicles));
}
run-IsConsistent fingerprint (claims token now ttl) db c =
    elim (Bool-cases (not (token == "") && ltb 0 ttl && leb ttl 5)) [
      | inl good ↦ elim (Option-cases (find (is_free now) db.outbox)) [
        | inl none_free ↦ subst IsConsistent (ground (arith)) c
        | inr free ↦ record {
          assigned = λ id. ground (arith, free.1, c.assigned id);
          queued = λ id. ground (
            arith,
            free.1,
            c.queued id,
            any-update (λ j. j.subject == id) (λ k. k.id == free.0.id) (leased token (now + ttl))
                db.outbox (λ j. refl),
          );
        }
      ]
      | inr bad ↦ subst IsConsistent (ground (arith)) c
    ]
run-IsConsistent fingerprint (acknowledges lease token now) db c =
    elim (Bool-cases (rowcount (is_held lease token now) db.outbox == 1)) [
      | inl one ↦ record {
        assigned = λ id. ground (arith, c.assigned id);
        queued = λ id. ground (
          arith,
          c.queued id,
          any-update (λ j. j.subject == id) (is_held lease token now)
              (λ j. record j { done = true }) db.outbox (λ j. refl),
        );
      }
      | inr other ↦ subst IsConsistent (ground (arith)) c
    ]

-- However the calls come, from the empty database on: an order is assigned if and only if it has an
-- assignment, and if and only if it has a job in the outbox.
pub run_all-IsConsistent :
    (fingerprint : Json → String) (calls : List Call) (cap : ℕ)
    → IsConsistent (run_all fingerprint calls (initial cap))
run_all-IsConsistent fingerprint calls cap =
    go calls (initial cap) (record { assigned = λ id. refl; queued = λ id. refl })
  where
    go :
        (calls : List Call) (db : Db)
        → IsConsistent db
        → IsConsistent (run_all fingerprint calls db)
    go [] db c = c
    go (call ∷ calls) db c =
        go calls (run fingerprint call db) (run-IsConsistent fingerprint call db c)
