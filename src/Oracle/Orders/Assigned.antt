-- ===== src/Oracle/Orders/Assigned.antt =====
-- prototypes/xano/reference_model.py: an order's state, its assignment and its job in the outbox.
use new_logistic.Prelude.{
  ◌≡◌, refl, subst, String, Bool, true, false, none, some, List, [], ◌∷◌, ◌++◌, ◌==◌, ◌&&◌, ◌||◌,
  string_eq, arith, Bool-cases, inl, inr, eq_iff,
}
use new_logistic.Prelude.Json.{Json}
use new_logistic.Oracle.{
  Code, Principal, Order, Assignment, Job, Db, ok, find, any, update, write_audit, require,
}
use new_logistic.Oracle.Leads.{Leads}
use new_logistic.Oracle.Outbox.{next_id, insert_job}
use new_logistic.Oracle.Orders.{remember, insert_order, insert_assignment}

abbrev pub is_assigned : String → List Order → Bool
is_assigned id = any (λ o. o.id == id && o.state == "assigned")

abbrev pub has_assignment : String → List Assignment → Bool
has_assignment id = any (λ a. a.order_id == id)

abbrev pub has_job : String → List Job → Bool
has_job id = any (λ j. j.subject == id)

-- An order is assigned if and only if it has an assignment, and if and only if it has a job.
pub record IsConsistent (db : Db) : Type 0 where
  pub assigned : (id : String) → has_assignment id db.assignments ≡ is_assigned id db.orders
  pub queued : (id : String) → has_assignment id db.assignments ≡ has_job id db.outbox

module _ {A : Type 0} (p : A → Bool) where
  any-append : (xs : List A) (x : A) → any p (xs ++ x ∷ []) ≡ (any p xs || p x)
  any-append [] x = ground (arith)
  any-append (y ∷ xs) x = ground (arith, any-append xs x)

  pub any-update :
      (q : A → Bool) (f : A → A) (xs : List A)
      → ((x : A) → p (f x) ≡ p x)
      → any p (update q f xs) ≡ any p xs
  any-update q f [] same = refl
  any-update q f (x ∷ xs) same = ground (arith, same x, any-update q f xs same, Bool-cases (q x))

  pub find-any :
      (q : A → Bool) (xs : List A) (x : A)
      → ((y : A) → q y ≡ true → p y ≡ true)
      → find q xs ≡ some x
      → any p xs ≡ true
  find-any q [] x h e = absurd (ground (arith))
  find-any q (y ∷ xs) x h e = ground (arith, h y, find-any q xs x h, Bool-cases (q y))

-- The orders after the one is set to be assigned.
is_assigned-update :
    (id order : String) (orders : List Order)
    → is_assigned id (update (λ o. o.id == order) (λ o. record o { state = "assigned" }) orders)
      ≡ (is_assigned id orders || (any (λ o. o.id == order) orders && order == id))
is_assigned-update id order [] = refl
is_assigned-update id order (o ∷ orders) = elim (Bool-cases (o.id == order)) [
  | inl same ↦ rw (same) (
      ground (
        arith,
        is_assigned-update id order orders,
        eq_iff o.id order,
        eq_iff o.id id,
        eq_iff order id,
      ))
  | inr other ↦ rw (other) (
      ground (
        arith,
        is_assigned-update id order orders,
        eq_iff o.id order,
        eq_iff o.id id,
        eq_iff order id,
      ))
]

-- As much of it as holds while `order` is being assigned: `a` if its state is still to be set, `b` if
-- its job is still to be written.
pub record IsPartly (order : String) (a b : Bool) (db : Db) : Type 0 where
  pub there : any (λ o. o.id == order) db.orders ≡ true
  pub assigned :
      (id : String)
      → has_assignment id db.assignments ≡ (is_assigned id db.orders || (a && order == id))
  pub queued :
      (id : String)
      → has_assignment id db.assignments ≡ (has_job id db.outbox || (b && order == id))

pub insert_order-Leads :
    (p : Principal) (order : String) → Leads IsConsistent (insert_order p order) IsConsistent
unfolding insert_order
insert_order-Leads p order = record {
  leads = λ db db' a e c.
      let fresh = Bool-cases (any (λ o. o.id == order) db.orders) in
      record {
        assigned = λ id. ground (
          arith,
          fresh,
          c.assigned id,
          any-append (λ o. o.id == id && o.state == "assigned") db.orders
              (record { id = order; tenant = p.tenant; customer = p.account; state = "created" }),
        );
        queued = λ id. ground (arith, fresh, c.queued id);
      };
}

pub write_audit-Leads :
    (p : Principal) (action subject : String)
    → Leads IsConsistent (write_audit p action subject) IsConsistent
unfolding write_audit
write_audit-Leads p action subject = record {
  leads = λ db db' a e c. record {
    assigned = λ id. ground (arith, c.assigned id);
    queued = λ id. ground (arith, c.queued id);
  };
}

pub remember-Leads :
    (fingerprint : Json → String) (p : Principal) (action key : String) (payload : Json)
    (result : String)
    → Leads IsConsistent (remember fingerprint p action key payload result) IsConsistent
unfolding remember
remember-Leads fingerprint p action key payload result = record {
  leads = λ db db' a e c. record {
    assigned = λ id. ground (arith, c.assigned id);
    queued = λ id. ground (arith, c.queued id);
  };
}

pub insert_assignment-Leads :
    (order vehicle vendor : String)
    → Leads
        (IsPartly order false false)
        (insert_assignment order vehicle vendor)
        (IsPartly order true true)
unfolding insert_assignment
insert_assignment-Leads order vehicle vendor = record {
  leads = λ db db' a e c.
      let new = any-append {A = Assignment} in
      record {
        there = ground (arith, c.there);
        assigned = λ id. ground (
          arith,
          c.assigned id,
          new (λ a. a.order_id == id) db.assignments
              (record { order_id = order; vehicle_id = vehicle; vendor = vendor }),
        );
        queued = λ id. ground (
          arith,
          c.queued id,
          new (λ a. a.order_id == id) db.assignments
              (record { order_id = order; vehicle_id = vehicle; vendor = vendor }),
        );
      };
}

-- `UPDATE orders SET state='assigned'`
unfoldable pub marked : String → Db → Db
marked order db = record db {
  orders = update (λ o. o.id == order) (λ o. record o { state = "assigned" }) db.orders;
}

pub marked-Leads :
    (order : String)
    → Leads (IsPartly order true true) (λ db. ok (tt, marked order db)) (IsPartly order false true)
unfolding marked
marked-Leads order = record {
  leads = λ db db' a e c. record {
    there = ground (
      arith,
      c.there,
      any-update (λ o. o.id == order) (λ o. o.id == order) (λ o. record o { state = "assigned" })
          db.orders (λ o. refl),
    );
    assigned = λ id. ground (arith, c.assigned id, c.there, is_assigned-update id order db.orders);
    queued = λ id. ground (arith, c.queued id);
  };
}

pub audited-Leads :
    (p : Principal) (action subject order : String)
    → Leads (IsPartly order false true) (write_audit p action subject) (IsPartly order false true)
unfolding write_audit
audited-Leads p action subject order = record {
  leads = λ db db' a e c. record {
    there = ground (arith, c.there);
    assigned = λ id. ground (arith, c.assigned id);
    queued = λ id. ground (arith, c.queued id);
  };
}

pub insert_job-Leads :
    (order : String) → Leads (IsPartly order false true) (insert_job order) IsConsistent
unfolding insert_job
insert_job-Leads order = record {
  leads = λ db db' a e c. record {
    assigned = λ id. ground (arith, c.assigned id);
    queued = λ id. ground (
      arith,
      c.queued id,
      any-append {A = Job} (λ j. j.subject == id) db.outbox
          (record {
            id = next_id db.outbox;
            subject = order;
            lease = none;
            until_at = 0;
            done = false;
            generation = 0;
          }),
    );
  };
}

pub require-Leads : (b : Bool) (code : Code) → Leads IsConsistent (require b code) IsConsistent
require-Leads b code = record { leads = λ db db' a e c. subst IsConsistent (ground (arith)) c }
