-- ===== src/Oracle/Orders/Again.antt =====
-- prototypes/xano/reference_model.py: the orders and assignments that are asked for twice.
use new_logistic.Prelude.{◌≡◌, ◌≢◌, String, Bool, Option, none, some, ◌==◌, string_eq, not, arith}
use new_logistic.Prelude.Json.{Json, str}
use new_logistic.Oracle.{
  forbidden, idempotency_conflict, injected_interruption, Principal, Vehicle, Db, ok, err, Body,
  find, modify, update, require, write_audit, ◌>>◌,
}
use new_logistic.Oracle.Outbox.{insert_job}
use new_logistic.Oracle.Orders.{
  is_order, is_vehicle, eligible_vehicle, remember, insert_order, insert_assignment, create_order,
  assign, pair, commanded, creation, taking, assignment,
}
use new_logistic.Oracle.Orders.Replay.{
  Ends, bind-Ends, transaction-again, Answered, commanded-Ends, commanded-key, commanded-again,
  commanded-other, remember-Answered,
}

module _ (fingerprint : Json → String) (p : Principal) where
  creation-Ends :
      (order key : String)
      → order ≢ ""
      → Ends (Answered fingerprint p "create" key (str order)) (creation fingerprint p order key)
  unfolding creation
  creation-Ends order key named =
      bind-Ends (Answered fingerprint p "create" key (str order)) (insert_order p order)
        (λ _.
          write_audit p "created" order >> remember fingerprint p "create" key (str order) order)
        (λ _.
          bind-Ends (Answered fingerprint p "create" key (str order))
            (write_audit p "created" order)
            (λ _. remember fingerprint p "create" key (str order) order)
            (λ _. remember-Answered fingerprint p "create" key (str order) order named))

  -- An order that was created, asked for again under the same key, gets the same answer, and nothing
  -- is written. The order's name is not empty.
  pub create_order-again :
      (order key : String) (db : Db) (r : String)
      → order ≢ ""
      → (create_order fingerprint p order key db).0 ≡ ok r
      → create_order fingerprint p order key (create_order fingerprint p order key db).1
        ≡ (ok r, (create_order fingerprint p order key db).1)
  unfolding create_order
  create_order-again order key db r named e =
      transaction-again (p.role == "customer") forbidden
        (commanded fingerprint p "create" key (str order) (creation fingerprint p order key))
        (commanded fingerprint p "create" key (str order) (creation fingerprint p order key)) (ok r)
        db r
        (λ db' e'. ground (
          arith,
          commanded-again fingerprint p "create" key (str order) (creation fingerprint p order key)
              (creation fingerprint p order key) (creation-Ends order key named) db db' r e',
        ))
        e

  then-Ends :
      (Q : String → Db → Type 0) (m : Body (Unit {0})) (k : Body String)
      → Ends Q k
      → Ends Q (m >> k)
  then-Ends Q m k ends = bind-Ends Q m (λ _. k) (λ _. ends)

  taking-Ends :
      (order vehicle key : String) (fail_before_commit : Bool) (v : Option Vehicle)
      → order ≢ ""
      → Ends
          (Answered fingerprint p "assign" key (pair order vehicle))
          (taking fingerprint p order vehicle key fail_before_commit v)
  unfolding taking
  taking-Ends order vehicle key fail_before_commit none named =
      λ db db' r e. absurd (ground (arith))
  taking-Ends order vehicle key fail_before_commit (some v) named =
      let Q = Answered fingerprint p "assign" key (pair order vehicle) in
      let ends = remember fingerprint p "assign" key (pair order vehicle) order in
      let interrupts = require (not fail_before_commit) injected_interruption in
      let audits = write_audit p "assigned" order in
      let marks = modify (λ db. record db {
        orders = update (λ o. o.id == order) (λ o. record o { state = "assigned" }) db.orders;
      }) in
      then-Ends Q (insert_assignment order vehicle v.vendor)
        (marks >> (audits >> (insert_job order >> (interrupts >> ends))))
        (then-Ends Q marks (audits >> (insert_job order >> (interrupts >> ends))) (
          then-Ends Q audits (insert_job order >> (interrupts >> ends)) (
            then-Ends Q (insert_job order) (interrupts >> ends) (
              then-Ends Q interrupts ends
                (remember-Answered fingerprint p "assign" key (pair order vehicle) order named)))))

  assignment-Ends :
      (order vehicle key : String) (fail_before_commit : Bool)
      → order ≢ ""
      → Ends
          (Answered fingerprint p "assign" key (pair order vehicle))
          (assignment fingerprint p order vehicle key fail_before_commit)
  unfolding assignment
  assignment-Ends order vehicle key fail_before_commit named db db' r e =
      taking-Ends order vehicle key fail_before_commit
        (eligible_vehicle (find (is_order p order) db.orders)
          (find (is_vehicle p vehicle) db.vehicles))
        named db db' r e

  -- An assignment that was made, asked for again under the same key, gets the same answer, and nothing
  -- is written, whether or not the second call is to be interrupted. The order's name is not empty.
  pub assign-again :
      (order vehicle key : String) (fails fails' : Bool) (db : Db) (r : String)
      → order ≢ ""
      → (assign fingerprint p order vehicle key fails db).0 ≡ ok r
      → assign fingerprint p order vehicle key fails'
          (assign fingerprint p order vehicle key fails db).1
        ≡ (ok r, (assign fingerprint p order vehicle key fails db).1)
  unfolding assign
  assign-again order vehicle key fails fails' db r named e =
      let body = assignment fingerprint p order vehicle key fails in
      let next = assignment fingerprint p order vehicle key fails' in
      let payload = pair order vehicle in
      transaction-again (p.role == "dispatcher") forbidden
        (commanded fingerprint p "assign" key payload body)
        (commanded fingerprint p "assign" key payload next) (ok r) db r
        (λ db' e'. ground (
          arith,
          commanded-again fingerprint p "assign" key payload body next
              (assignment-Ends order vehicle key fails named) db db' r e',
        ))
        e

  -- Under the key of an assignment that was made, another order or vehicle is refused, and nothing is
  -- written: the fingerprints of the two differ.
  pub assign-other :
      (order vehicle order' vehicle' key : String) (fails fails' : Bool) (db : Db) (r : String)
      → order ≢ ""
      → (assign fingerprint p order vehicle key fails db).0 ≡ ok r
      → fingerprint (pair order vehicle) ≢ fingerprint (pair order' vehicle')
      → assign fingerprint p order' vehicle' key fails'
          (assign fingerprint p order vehicle key fails db).1
        ≡ (err idempotency_conflict, (assign fingerprint p order vehicle key fails db).1)
  unfolding assign
  assign-other order vehicle order' vehicle' key fails fails' db r named e differs =
      let payload = pair order vehicle in
      let payload' = pair order' vehicle' in
      let body = assignment fingerprint p order vehicle key fails in
      let next = assignment fingerprint p order' vehicle' key fails' in
      transaction-again (p.role == "dispatcher") forbidden
        (commanded fingerprint p "assign" key payload body)
        (commanded fingerprint p "assign" key payload' next) (err idempotency_conflict) db r
        (λ db' e'.
          let done =
            commanded-Ends fingerprint p "assign" key payload body
              (assignment-Ends order vehicle key fails named) db db' r e' in
          ground (
            arith,
            commanded-other fingerprint p "assign" key payload payload' r next db'
                (commanded-key fingerprint p "assign" key payload body db (r, db') e') done.0
                differs,
          ))
        e
