-- ===== src/Oracle/Orders.antt =====
-- prototypes/xano/reference_model.py: the orders, their assignment to vehicles, and the commands that
-- are remembered under an idempotency key.
mod Replay
pub mod Again
pub mod Assigned
mod Steps
pub mod Consistent
pub mod Tenants
use new_logistic.Prelude.{
  ℕ, String, Bool, true, false, Option, none, some, List, [], ◌∷◌, ◌++◌, ◌&&◌, ◌||◌, not, ◌==◌,
  string_eq, if◌then◌else◌,
}
use new_logistic.Prelude.Json.{Json, str, arr, nil, cons}
use new_logistic.Oracle.{
  Code, forbidden, idempotency_required, idempotency_conflict, not_found, ineligible, conflict,
  injected_interruption, Principal, Order, Vehicle, Assignment, Command, Db, Result, ok, err, Body,
  pure, reject, ◌>>=◌, ◌>>◌, require, gets, modify, transaction, guard, find, any, update,
  write_audit,
}
use new_logistic.Oracle.Outbox.{insert_job}

-- The answer of `read_order`.
pub record View : Type 0 where
  pub id : String
  pub state : String

-- `seed_vehicle`
unfoldable pub seed_vehicle : String → String → String → Bool → Db → Result (Unit {0}) × Db
seed_vehicle vehicle tenant vendor eligible = transaction (λ db.
    if any (λ v. v.id == vehicle) db.vehicles
    then err conflict
    else ok (
      tt,
      record db {
        vehicles =
            db.vehicles
            ++ record { id = vehicle; tenant = tenant; vendor = vendor; eligible = eligible } ∷ [];
      },
    ))

-- The command under a key.
abbrev pub is_command : Principal → String → String → Command → Bool
is_command p action key c =
    c.tenant == p.tenant && c.actor == p.account && c.action == action && c.key == key

-- A row of the tenant.
abbrev pub is_order : Principal → String → Order → Bool
is_order p id o = o.id == id && o.tenant == p.tenant

abbrev pub is_vehicle : Principal → String → Vehicle → Bool
is_vehicle p id v = v.id == id && v.tenant == p.tenant

-- `read_order`
unfoldable pub read_order : Principal → String → Db → Result View × Db
read_order p order = transaction (do
  row ← gets (λ db. find (is_order p order) db.orders)
  elim row as (λ _. Body View) [
    | none ↦ reject not_found
    | some o ↦ do
      assigned ← gets (λ db. find (λ a. a.order_id == order) db.assignments)
      require
          (p.role == "customer" && o.customer == p.account
            || p.role == "vendor"
              && elim assigned [ none ↦ false | some a ↦ a.vendor == p.account ])
          not_found
      pure (record { id = o.id; state = o.state })
  ])

-- `INSERT INTO orders VALUES(?,?,?,'created')`
unfoldable pub insert_order : Principal → String → Body (Unit {0})
insert_order p order db =
    if any (λ o. o.id == order) db.orders
    then err conflict
    else ok (
      tt,
      record db {
        orders =
            db.orders
            ++ record { id = order; tenant = p.tenant; customer = p.account; state = "created" }
              ∷ [];
      },
    )

-- `INSERT INTO assignments VALUES(?,?,?)`: an order and a vehicle stand once.
unfoldable pub insert_assignment : String → String → String → Body (Unit {0})
insert_assignment order vehicle vendor db =
    if any (λ a. a.order_id == order || a.vehicle_id == vehicle) db.assignments
    then err conflict
    else ok (
      tt,
      record db {
        assignments =
            db.assignments
            ++ record { order_id = order; vehicle_id = vehicle; vendor = vendor } ∷ [];
      },
    )

-- The payload of an assignment.
abbrev pub pair : String → String → Json
pair order vehicle = arr (cons (str order) (cons (str vehicle) nil))

-- The vehicle that an assignment takes, if the order and the vehicle are eligible.
abbrev pub eligible_vehicle : Option Order → Option Vehicle → Option Vehicle
eligible_vehicle none v = none
eligible_vehicle (some o) none = none
eligible_vehicle (some o) (some v) = if o.state == "created" && v.eligible then some v else none

module _ (fingerprint : Json → String) where
  -- `replay`
  unfoldable pub replay : Principal → String → String → Json → Body (Option String)
  replay p action key payload = do
    require (not (key == "")) idempotency_required
    row ← gets (λ db. find (is_command p action key) db.commands)
    elim row as (λ _. Body (Option String)) [
      | none ↦ pure none
      | some c ↦ do
        require (c.fingerprint == fingerprint payload) idempotency_conflict
        pure (some c.result)
    ]

  -- `remember`
  unfoldable pub remember : Principal → String → String → Json → String → Body String
  remember p action key payload result db =
      if any (is_command p action key) db.commands
      then err conflict
      else ok (
        result,
        record db {
          commands =
              db.commands
              ++ record {
                tenant = p.tenant;
                actor = p.account;
                action = action;
                key = key;
                fingerprint = fingerprint payload;
                result = result;
              }
                ∷ [];
        },
      )

  -- `previous = self.replay(...)`, `if previous: return previous`, and the body: an empty result is
  -- not one.
  unfoldable pub commanded : Principal → String → String → Json → Body String → Body String
  commanded p action key payload body = do
    previous ← replay p action key payload
    elim previous as (λ _. Body String) [ none ↦ body | some r ↦ if r == "" then body else pure r ]

  -- The body of `create_order`.
  unfoldable pub creation : Principal → String → String → Body String
  creation p order key = do
    insert_order p order
    write_audit p "created" order
    remember p "create" key (str order) order

  -- `create_order`
  unfoldable pub create_order : Principal → String → String → Db → Result String × Db
  create_order p order key =
      guard (p.role == "customer") forbidden
        (transaction (commanded p "create" key (str order) (creation p order key)))

  -- The writes of `assign`, once it has an order and a vehicle that are eligible.
  unfoldable pub taking : Principal → String → String → String → Bool → Option Vehicle → Body String
  taking p order vehicle key fail_before_commit none = reject ineligible
  taking p order vehicle key fail_before_commit (some v) = do
    insert_assignment order vehicle v.vendor
    modify (λ db. record db {
      orders = update (λ o. o.id == order) (λ o. record o { state = "assigned" }) db.orders;
    })
    write_audit p "assigned" order
    insert_job order
    require (not fail_before_commit) injected_interruption
    remember p "assign" key (pair order vehicle) order

  -- The body of `assign`.
  unfoldable pub assignment : Principal → String → String → String → Bool → Body String
  assignment p order vehicle key fail_before_commit = do
    o ← gets (λ db. find (is_order p order) db.orders)
    v ← gets (λ db. find (is_vehicle p vehicle) db.vehicles)
    taking p order vehicle key fail_before_commit (eligible_vehicle o v)

  -- `assign`
  unfoldable pub assign : Principal → String → String → String → Bool → Db → Result String × Db
  assign p order vehicle key fail_before_commit = guard (p.role == "dispatcher") forbidden (
      transaction (
        commanded p "assign" key (pair order vehicle)
          (assignment p order vehicle key fail_before_commit)))
