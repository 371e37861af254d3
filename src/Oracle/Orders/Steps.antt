-- ===== src/Oracle/Orders/Steps.antt =====
-- prototypes/xano/reference_model.py: the bodies of the orders' commands keep an order's state, its
-- assignment and its job together.
use new_logistic.Prelude.{
  ◌≡◌, refl, subst, String, Bool, true, false, Option, none, some, ◌==◌, string_eq, not, arith,
  Bool-cases, Option-cases, inl, inr, nat_eq,
}
use new_logistic.Prelude.Json.{Json, str}
use new_logistic.Oracle.{
  Principal, Order, Vehicle, Db, err, Body, find, ◌>>◌, write_audit, modify, require,
  injected_interruption, ineligible,
}
use new_logistic.Oracle.Leads.{Leads, bind-Leads}
use new_logistic.Oracle.Outbox.{insert_job}
use new_logistic.Oracle.Orders.{
  is_command, is_order, is_vehicle, eligible_vehicle, replay, remember, insert_order,
  insert_assignment, pair, commanded, creation, taking, assignment,
}
use new_logistic.Oracle.Orders.Assigned.{
  IsConsistent, IsPartly, insert_order-Leads, write_audit-Leads, remember-Leads,
  insert_assignment-Leads, marked, marked-Leads, audited-Leads, insert_job-Leads, require-Leads,
  find-any,
}

module _ (fingerprint : Json → String) (p : Principal) where
  pub creation-Leads :
      (order key : String) → Leads IsConsistent (creation fingerprint p order key) IsConsistent
  unfolding creation
  creation-Leads order key =
      let ends = remember fingerprint p "create" key (str order) order in
      bind-Leads IsConsistent IsConsistent IsConsistent (insert_order p order)
        (λ _. write_audit p "created" order >> ends) (insert_order-Leads p order)
        (λ _.
          bind-Leads IsConsistent IsConsistent IsConsistent (write_audit p "created" order)
            (λ _. ends) (write_audit-Leads p "created" order)
            (λ _. remember-Leads fingerprint p "create" key (str order) order))

  taking-Leads :
      (order vehicle key : String) (fails : Bool) (v : Option Vehicle)
      → Leads
          (IsPartly order false false)
          (taking fingerprint p order vehicle key fails v)
          IsConsistent
  unfolding taking marked
  taking-Leads order vehicle key fails none = record {
    leads = λ db db' a e c. absurd (ground (arith));
  }
  taking-Leads order vehicle key fails (some v) =
      let ends = remember fingerprint p "assign" key (pair order vehicle) order in
      let interrupts = require (not fails) injected_interruption in
      let audits = write_audit p "assigned" order in
      let I = IsConsistent in
      bind-Leads (IsPartly order false false) (IsPartly order true true) I
        (insert_assignment order vehicle v.vendor)
        (λ _. modify (marked order) >> (audits >> (insert_job order >> (interrupts >> ends))))
        (insert_assignment-Leads order vehicle v.vendor)
        (λ _.
          bind-Leads (IsPartly order true true) (IsPartly order false true) I
            (modify (marked order)) (λ _. audits >> (insert_job order >> (interrupts >> ends)))
            (marked-Leads order)
            (λ _.
              bind-Leads (IsPartly order false true) (IsPartly order false true) I audits
                (λ _. insert_job order >> (interrupts >> ends))
                (audited-Leads p "assigned" order order)
                (λ _.
                  bind-Leads (IsPartly order false true) I I (insert_job order)
                    (λ _. interrupts >> ends) (insert_job-Leads order)
                    (λ _.
                      bind-Leads I I I interrupts (λ _. ends)
                        (require-Leads (not fails) injected_interruption)
                        (λ _.
                          remember-Leads fingerprint p "assign" key (pair order vehicle) order)))))

  -- The state before an assignment, of an order that there is.
  IsConsistent-IsPartly :
      (order : String) (o : Order) (db : Db)
      → find (is_order p order) db.orders ≡ some o
      → IsConsistent db
      → IsPartly order false false db
  IsConsistent-IsPartly order o db e c = record {
    there = find-any (λ o. o.id == order) (is_order p order) db.orders o (λ o h. ground (arith)) e;
    assigned = λ id. ground (arith, c.assigned id);
    queued = λ id. ground (arith, c.queued id);
  }

  taking-none :
      (order vehicle key : String) (fails : Bool) (db : Db)
      → taking fingerprint p order vehicle key fails none db ≡ err ineligible
  unfolding taking
  taking-none order vehicle key fails db = refl

  pub assignment-Leads :
      (order vehicle key : String) (fails : Bool)
      → Leads IsConsistent (assignment fingerprint p order vehicle key fails) IsConsistent
  unfolding assignment
  assignment-Leads order vehicle key fails = record {
    leads = λ db db' a e c.
        let v = find (is_vehicle p vehicle) db.vehicles in
        elim (Option-cases (find (is_order p order) db.orders)) [
          | inl missing ↦ absurd (ground (arith, missing, taking-none order vehicle key fails db))
          | inr there ↦
              (taking-Leads order vehicle key fails (eligible_vehicle (some there.0) v)).leads db
                db' a (ground (arith, there.1)) (IsConsistent-IsPartly order there.0 db there.1 c)
        ];
  }

  pub commanded-Leads :
      (action key : String) (payload : Json) (body : Body String)
      → Leads IsConsistent body IsConsistent
      → Leads IsConsistent (commanded fingerprint p action key payload body) IsConsistent
  unfolding commanded replay
  commanded-Leads action key payload body keeps = record {
    leads = λ db db' a e c. elim (Option-cases (find (is_command p action key) db.commands)) [
      | inl missing ↦ keeps.leads db db' a (ground (arith, Bool-cases (key == ""))) c
      | inr there ↦ elim (Bool-cases (there.0.result == "")) [
        | inl blank ↦
            keeps.leads db db' a
              (ground (
                arith,
                Bool-cases (key == ""),
                Bool-cases (there.0.fingerprint == fingerprint payload),
              ))
              c
        | inr answer ↦
            subst IsConsistent
              (ground (
                arith,
                Bool-cases (key == ""),
                Bool-cases (there.0.fingerprint == fingerprint payload),
              ))
              c
      ]
    ];
  }
